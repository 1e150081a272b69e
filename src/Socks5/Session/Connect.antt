-- ===== src/Socks5/Session/Connect.antt =====
-- src/server/states/connect.c: what the connection that was begun has come to.
use socks5proxy.Prelude.{
  ℕ, ◌≡◌, Bool, true, false, ◌||◌, Option, none, some, List, [], ◌∷◌, ◌==◌, if◌then◌else◌, ◌>>=◌,
}
use socks5proxy.Selector.{op_noop}
use socks5proxy.Socks5.{SocksV5State}
use socks5proxy.Socks5.Session.{
  AddrInfo, Session, succeded, server_failure, network_unreachable, host_unreachable,
  connection_refused, ttl_expired,
}
use socks5proxy.Socks5.Session.Connection.{
  Errno, enetunreach, ehostunreach, econnrefused, etimedout, other_error, Attempt, no_socket,
  not_nio, connected, in_progress, refused, get_next_resolution, try_connection, general_failure,
  selector_register_failed, connection_in_progress,
}
use socks5proxy.Socks5.Session.Request.{to_reply_state}

-- `selector_set_interest(key->s, origin_fd, OP_NOOP)`, which changes nothing for a descriptor that
-- is not registered.
abbrev pub origin_noop : Session → Session
origin_noop s = record s {
  origin_interest = elim s.origin_interest [ none ↦ none | some _ ↦ some op_noop ];
}

-- Whether a code is one of the four that both `switch`es copy.
unfoldable pub is_copied : ℕ → Bool
is_copied code =
    code == network_unreachable
    || code == host_unreachable
    || code == connection_refused
    || code == ttl_expired

-- `opt_val` is what `getsockopt` stored, `none` if it failed. Where the code of the option is one of
-- the replies' codes, the reply gets the result of `getsockopt`, which is 0.
unfoldable pub connect_write :
    (AddrInfo → Attempt) → Session → Option ℕ → Option (SocksV5State × Session)
connect_write attempt s opt_val = elim opt_val [
  | none ↦ some (to_reply_state s server_failure)
  | some v ↦
      if v == 0
      then some (to_reply_state (origin_noop s) succeded)
      else (let s₁ = record s { origin_interest = none; origin_fd = none } in
          elim s.origin_resolution [
            | [] ↦ none
            | a ∷ rest ↦ elim rest [
              | [] ↦ some (to_reply_state s₁ (if is_copied v then 0 else server_failure))
              | b ∷ more ↦ do
                s₂ ← get_next_resolution s₁
                (ret, s₃) ← try_connection attempt s₂
                if ret == general_failure || ret == selector_register_failed
                    then some (to_reply_state s₃ server_failure)
                    else if is_copied ret
                    then some (to_reply_state s₃ ret)
                    else if ret == connection_in_progress
                    then some (SocksV5State.connect, s₃)
                    else some (to_reply_state (origin_noop s₃) succeded)
            ]
          ])
]

-- The reply to a connection that was refused.
abbrev pub refusal : Errno → ℕ
refusal enetunreach = 3
refusal ehostunreach = 4
refusal econnrefused = 5
refusal etimedout = 6
refusal other_error = server_failure

-- What the client is told: the state, and the code of the reply, when this address decides.
abbrev pub Told : Attempt → List AddrInfo → SocksV5State → ℕ → Type 0
Told no_socket ys st rep = ⊥
Told not_nio ys st rep = ⊥
Told (connected fd) ys st rep = (st ≡ SocksV5State.reply) × (rep ≡ network_unreachable)
Told (in_progress fd true) ys st rep = st ≡ SocksV5State.connect
Told (in_progress fd false) ys st rep = (st ≡ SocksV5State.reply) × (rep ≡ server_failure)
Told (refused fd e) ys st rep = (ys ≡ []) × (st ≡ SocksV5State.reply) × (rep ≡ refusal e)
