-- ===== src/Copy/Armed.antt =====
-- When both sides of a copied connection are armed as the buffers ask (src/server/states/copy.c).
use socks5proxy.Prelude.{ℕ, ◌≡◌, refl, true, some, arith}
use socks5proxy.Buffer.{Buffer, buffer_can_write, buffer_can_read}
use socks5proxy.Metrics.{register_bytes_transferred}
use socks5proxy.Socks5.{SocksV5State}
use socks5proxy.Copy.{
  Side, client, origin, other, Copying, buffer_of, with_buffer, copy_of, with_copy, interest,
  update_target_interests, next_state, selector_set_interest, set_interests,
}

-- A side has its item in the selector.
abbrev pub Registered : Side → Copying → Type 0
Registered side c = (i : ℕ) × ((copy_of side c).item ≡ some i)

-- A side waits to be read if there is room for what it sends, and to be written if bytes wait for it;
-- the selector knows it.
pub record Armed (side : Side) (c : Copying) : Type 0 where
  pub armed :
      (copy_of side c).interests
      ≡ interest (buffer_can_write (buffer_of (other side) c)) (buffer_can_read (buffer_of side c))
  pub told : (copy_of side c).item ≡ some (copy_of side c).interests

-- What a transfer leaves: both sides are armed, and the buffers are the ones given.
pub record Transfer (side : Side) (mine others : Buffer) (c : Copying) : Type 0 where
  pub armed_client : Armed client c
  pub armed_origin : Armed origin c
  pub mine_eq : buffer_of side c ≡ mine
  pub others_eq : buffer_of (other side) c ≡ others

pub Armed-at :
    {side : Side} {mine others : Buffer} {c : Copying}
    → Transfer side mine others c
    → (of : Side) → Armed of c
Armed-at t client = t.armed_client
Armed-at t origin = t.armed_origin

-- Both sides armed by what the buffers hold.
abbrev pub rearmed : Copying → Copying
rearmed c =
    let ic = interest (buffer_can_write (c.client_buffer)) (buffer_can_read (c.origin_buffer)) in
    let io = interest (buffer_can_write (c.origin_buffer)) (buffer_can_read (c.client_buffer)) in
    record c {
      client_copy = record (c.client_copy) { interests = ic; item = some ic };
      origin_copy = record (c.origin_copy) { interests = io; item = some io };
    }

pub rearmed-Transfer :
    (side : Side) (c : Copying)
    → Transfer side (buffer_of side c) (buffer_of (other side) c) (rearmed c)
unfolding copy_of other buffer_of
rearmed-Transfer client c = record {
  armed_client = record { armed = refl; told = refl };
  armed_origin = record { armed = refl; told = refl };
  mine_eq = refl;
  others_eq = refl;
}
rearmed-Transfer origin c = record {
  armed_client = record { armed = refl; told = refl };
  armed_origin = record { armed = refl; told = refl };
  mine_eq = refl;
  others_eq = refl;
}

pub update_target_interests_lem :
    (side : Side) (c : Copying)
    → Registered client c
    → Registered origin c
    → update_target_interests side c ≡ (some (copy_of side (rearmed c)).interests, rearmed c)
unfolding update_target_interests selector_set_interest set_interests with_copy copy_of other
    buffer_of
update_target_interests_lem client c (i, p) (j, q) = rw (p, q)
update_target_interests_lem origin c (i, p) (j, q) = rw (q, p)

-- The connection with another buffer for what is sent to a side, and other metrics.
abbrev pub moved : Side → Buffer → Copying → ℕ → ℕ → Copying
moved side b c rx tx =
    let c' = with_buffer side b c in
    record c' { metrics = register_bytes_transferred rx tx c.metrics }

pub moved-Registered :
    (side of : Side) (b : Buffer) (c : Copying) (rx tx : ℕ)
    → Registered of c
    → Registered of (moved side b c rx tx)
unfolding with_buffer copy_of
moved-Registered client client b c rx tx r = r
moved-Registered client origin b c rx tx r = r
moved-Registered origin client b c rx tx r = r
moved-Registered origin origin b c rx tx r = r

pub buffer_of-moved :
    (side : Side) (b : Buffer) (c : Copying) (rx tx : ℕ)
    → (buffer_of side (moved side b c rx tx) ≡ b)
      × (buffer_of (other side) (moved side b c rx tx) ≡ buffer_of (other side) c)
unfolding with_buffer buffer_of other
buffer_of-moved client b c rx tx = (refl, refl)
buffer_of-moved origin b c rx tx = (refl, refl)

-- A side for which bytes wait keeps the connection copying.
pub next_state_lem :
    (side : Side) (c : Copying)
    → Armed side c
    → buffer_can_read (buffer_of side c) ≡ true
    → next_state c ≡ SocksV5State.copy
unfolding next_state copy_of interest
next_state_lem client c a w = ground (arith, a.armed, w)
next_state_lem origin c a w = ground (arith, a.armed, w)
