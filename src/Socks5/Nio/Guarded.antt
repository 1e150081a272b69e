-- ===== src/Socks5/Nio/Guarded.antt =====
-- No handler of the table of src/server/socks5nio.c lets a connection past the authentication that it
-- chose.
use socks5proxy.Prelude.{
  ℕ, ◌≡◌, ◌≢◌, refl, sym, true, false, Option, none, some, >>=-eq-some, arith, Option-cases, inl,
  inr,
}
use socks5proxy.Stm.{StateDefinition, call}
use socks5proxy.Stm.Driver.{ready, arrival}
use socks5proxy.Socks5.{SocksV5State, Socks5}
use socks5proxy.Socks5.Late.{late}
use socks5proxy.Socks5.Greeting.{auth_method, greeting_read, greeting_write}
use socks5proxy.Socks5.Greeting.Progress.{greeting_read-Early, greeting_write-Chosen}
use socks5proxy.Socks5.Auth.{auth_read, auth_write}
use socks5proxy.Socks5.Auth.Progress.{auth_read-Early, auth_write-Authenticated}
use socks5proxy.Socks5.Nio.{Proxied, Handler}
use socks5proxy.Socks5.Nio.Table.{
  index, Key, socks5_ready, definition, socks5_states, greeting_reading, greeting_writing,
  auth_reading, auth_writing, request_reading, request_blocking, connect_writing, reply_writing,
  copy_reading, copy_writing, reply_arriving, copy_arriving,
}

-- In a state behind the authentication the method 0x02 implies that the connection is authenticated.
abbrev pub Guarded : SocksV5State → Socks5 → Type 0
Guarded st c = late st ≡ true → c.greeting_st.method ≡ auth_method → c.auth_st.authenticated ≡ true

abbrev Keeps : SocksV5State → Handler → Type 0
Keeps st h =
    (k : Proxied) (st' : SocksV5State) (k' : Proxied)
    → Guarded st k.base
    → h k ≡ some (st', k')
    → Guarded st' k'.base

-- A handler that is only run behind the authentication, and leaves what it was for alone.
abbrev Leaves : Handler → Type 0
Leaves h =
    (k : Proxied) (st' : SocksV5State) (k' : Proxied)
    → h k ≡ some (st', k')
    → (k'.base.greeting_st ≡ k.base.greeting_st) × (k'.base.auth_st ≡ k.base.auth_st)

Leaves-Keeps : (st : SocksV5State) (h : Handler) → late st ≡ true → Leaves h → Keeps st h
Leaves-Keeps st h l leaves k st' k' g e l' m =
    let (p, q) = leaves k st' k' e in
    let before : k.base.auth_st.authenticated ≡ true = g l (ground arith) in ground arith

-- The handlers of the states, one lemma for each.
module _ (k : Proxied) {st' : SocksV5State} {k' : Proxied} where
  greeting_reading-late : greeting_reading k ≡ some (st', k') → late st' ≡ false
  unfolding greeting_reading
  greeting_reading-late e =
      let ((s, c), e₁, k₁) = >>=-eq-some (greeting_read k.base k.outcomes.first) _ e in
      let h = greeting_read-Early k.base k.outcomes.first e₁ in ground arith

  auth_reading-late : auth_reading k ≡ some (st', k') → late st' ≡ false
  unfolding auth_reading
  auth_reading-late e =
      let ((s, c, u), e₁, k₁) = >>=-eq-some (auth_read k.base k.users k.outcomes.first) _ e in
      let h = auth_read-Early k.base k.users k.outcomes.first e₁ in ground arith

  greeting_writing-Chosen :
      greeting_writing k ≡ some (st', k')
      → late st' ≡ true
      → k'.base.greeting_st.method ≢ auth_method
  unfolding greeting_writing
  greeting_writing-Chosen e l =
      let ((s, c), e₁, k₁) = >>=-eq-some (greeting_write k.base k.outcomes.sent) _ e in
      let h = greeting_write-Chosen k.base k.outcomes.sent e₁ (ground arith) in ground arith

  auth_writing-Authenticated :
      auth_writing k ≡ some (st', k') → late st' ≡ true → k'.base.auth_st.authenticated ≡ true
  unfolding auth_writing
  auth_writing-Authenticated e l =
      let ((s, c), e₁, k₁) = >>=-eq-some (auth_write k.base k.outcomes.sent) _ e in
      let h = auth_write-Authenticated k.base k.outcomes.sent e₁ (ground arith) in ground arith

request_reading-Leaves : Leaves request_reading
unfolding request_reading
request_reading-Leaves k st' k' e = ground arith

request_blocking-Leaves : Leaves request_blocking
unfolding request_blocking
request_blocking-Leaves k st' k' e = ground arith

connect_writing-Leaves : Leaves connect_writing
unfolding connect_writing
connect_writing-Leaves k st' k' e = ground arith

reply_writing-Leaves : Leaves reply_writing
unfolding reply_writing
reply_writing-Leaves k st' k' e = ground arith

copy_reading-Leaves : Leaves copy_reading
unfolding copy_reading
copy_reading-Leaves k st' k' e = ground arith

copy_writing-Leaves : Leaves copy_writing
unfolding copy_writing
copy_writing-Leaves k st' k' e = ground arith

pub states_at : (st : SocksV5State) → socks5_states (index st) ≡ definition st
unfolding socks5_states index
states_at SocksV5State.greeting = refl
states_at SocksV5State.auth = refl
states_at SocksV5State.request = refl
states_at SocksV5State.connect = refl
states_at SocksV5State.reply = refl
states_at SocksV5State.copy = refl
states_at SocksV5State.done = refl
states_at SocksV5State.error = refl

-- Which of the three pointers of an entry an event reads.
pub data Kind : Type 0 where
  read write block : Kind

abbrev pub pointer : Kind → StateDefinition Key → Option (Key → ℕ × Key)
pointer read d = d.on_read_ready
pointer write d = d.on_write_ready
pointer block d = d.on_block_ready

ready-Keeps :
    (st : SocksV5State) (h : Handler) (k k₁ : Proxied) (ret : ℕ) {f : Key → ℕ × Key}
    → Keeps st h
    → Guarded st k.base
    → some (socks5_ready h) ≡ some f
    → f (some k) ≡ (ret, some k₁)
    → (st' : SocksV5State) × (ret ≡ index st') × Guarded st' k₁.base
unfolding ready
ready-Keeps st h k k₁ ret {f} keeps g q e = elim (Option-cases (h k)) [
  | inl n ↦ absurd (ground arith)
  | inr ((st', k'), p) ↦
      let same : k' ≡ k₁ = ground arith in
      let r : ret ≡ index st' = ground arith in (st', r, rw (sym same) (keeps k st' k' g p))
]

-- Every handler of the table keeps the connection guarded.
pub entry-Keeps :
    (st : SocksV5State) (kind : Kind) (k k₁ : Proxied) (ret : ℕ) {f : Key → ℕ × Key}
    → Guarded st k.base
    → pointer kind (definition st) ≡ some f
    → f (some k) ≡ (ret, some k₁)
    → (st' : SocksV5State) × (ret ≡ index st') × Guarded st' k₁.base
unfolding definition late
entry-Keeps SocksV5State.greeting read k k₁ ret g =
    ready-Keeps SocksV5State.greeting greeting_reading k k₁ ret
      (λ a st' b g' e l m. absurd (ground (arith, greeting_reading-late a e))) g
entry-Keeps SocksV5State.greeting write k k₁ ret g =
    ready-Keeps SocksV5State.greeting greeting_writing k k₁ ret
      (λ a st' b g' e l m. absurd (greeting_writing-Chosen a e l m)) g
entry-Keeps SocksV5State.auth read k k₁ ret g =
    ready-Keeps SocksV5State.auth auth_reading k k₁ ret
      (λ a st' b g' e l m. absurd (ground (arith, auth_reading-late a e))) g
entry-Keeps SocksV5State.auth write k k₁ ret g =
    ready-Keeps SocksV5State.auth auth_writing k k₁ ret
      (λ a st' b g' e l m. auth_writing-Authenticated a e l) g
entry-Keeps SocksV5State.request read k k₁ ret g =
    ready-Keeps SocksV5State.request request_reading k k₁ ret
      (Leaves-Keeps SocksV5State.request request_reading refl request_reading-Leaves) g
entry-Keeps SocksV5State.request block k k₁ ret g =
    ready-Keeps SocksV5State.request request_blocking k k₁ ret
      (Leaves-Keeps SocksV5State.request request_blocking refl request_blocking-Leaves) g
entry-Keeps SocksV5State.connect write k k₁ ret g =
    ready-Keeps SocksV5State.connect connect_writing k k₁ ret
      (Leaves-Keeps SocksV5State.connect connect_writing refl connect_writing-Leaves) g
entry-Keeps SocksV5State.reply write k k₁ ret g =
    ready-Keeps SocksV5State.reply reply_writing k k₁ ret
      (Leaves-Keeps SocksV5State.reply reply_writing refl reply_writing-Leaves) g
entry-Keeps SocksV5State.copy read k k₁ ret g =
    ready-Keeps SocksV5State.copy copy_reading k k₁ ret
      (Leaves-Keeps SocksV5State.copy copy_reading refl copy_reading-Leaves) g
entry-Keeps SocksV5State.copy write k k₁ ret g =
    ready-Keeps SocksV5State.copy copy_writing k k₁ ret
      (Leaves-Keeps SocksV5State.copy copy_writing refl copy_writing-Leaves) g
entry-Keeps st read k k₁ ret g = λ q e. absurd (cc q)
entry-Keeps st write k k₁ ret g = λ q e. absurd (cc q)
entry-Keeps st block k k₁ ret g = λ q e. absurd (cc q)

-- Arriving at a state, or leaving one, gives nobody access.
pub arrive-Guarded :
    (st : SocksV5State) (i : ℕ) (key : Key) {k' : Proxied}
    → call (definition st).on_arrival i key ≡ some k'
    → (k : Proxied) × (key ≡ some k) × (Guarded st k.base → Guarded st k'.base)
unfolding definition call arrival late reply_arriving copy_arriving
arrive-Guarded SocksV5State.greeting i (some k) e = (k, refl, λ g l. cc l)
arrive-Guarded SocksV5State.auth i (some k) e = (k, refl, λ g l. cc l)
arrive-Guarded SocksV5State.done i (some k) e = (k, refl, λ g l. cc l)
arrive-Guarded SocksV5State.error i (some k) e = (k, refl, λ g l. cc l)
arrive-Guarded st i (some k) e = (k, refl, λ g l m. let b = g l (ground arith) in ground arith)
arrive-Guarded st i none e = absurd (ground arith)

pub depart_same :
    (st : SocksV5State) (i : ℕ) (key : Key) → call (definition st).on_departure i key ≡ key
unfolding definition call
depart_same SocksV5State.greeting i key = refl
depart_same SocksV5State.auth i key = refl
depart_same SocksV5State.request i key = refl
depart_same SocksV5State.connect i key = refl
depart_same SocksV5State.reply i key = refl
depart_same SocksV5State.copy i key = refl
depart_same SocksV5State.done i key = refl
depart_same SocksV5State.error i key = refl
