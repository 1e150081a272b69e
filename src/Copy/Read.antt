-- ===== src/Copy/Read.antt =====
-- `socksv5_copy_read`: what is received waits for the other side, behind what waits there already.
use socks5proxy.Prelude.{ℕ, ◌+◌, ◌≤◌, ◌≡◌, refl, ap, ◌∙◌, some, List, ◌∷◌, ◌++◌, length, arith}
use socks5proxy.Buffer.{Buffer}
use socks5proxy.Buffer.View.{Holds, received, buffer_write_adv-received}
use socks5proxy.Buffer.Rules.{write_ptr, received_step, can_write_room, can_read_behind}
use socks5proxy.Socket.{Recv, recv_into}
use socks5proxy.Socks5.{SocksV5State}
use socks5proxy.Copy.{
  Side, client, origin, other, Copying, buffer_of, next_state, socksv5_copy_read,
}
use socks5proxy.Copy.Armed.{
  Registered, Transfer, rearmed, rearmed-Transfer, update_target_interests_lem, moved,
  moved-Registered, buffer_of-moved, next_state_lem, Armed-at,
}

-- `other` swaps the two sides.
pub other-other : (side : Side) → other (other side) ≡ side
unfolding other
other-other client = refl
other-other origin = refl

-- If `recv` delivers bytes that fit, on a connection whose two descriptors are registered, then
-- `socksv5_copy_read` stays in COPY, the bytes wait for the other side behind those that waited there
-- before, what waits for this side is the same, and both sides are armed as their buffers ask.
pub socksv5_copy_read-Transfer :
    (from : Side) (c : Copying) (waiting : List ℕ) (x : ℕ) (xs : List ℕ) {limit : ℕ}
    → Holds (buffer_of (other from) c) waiting limit
    → (buffer_of (other from) c).write + length (x ∷ xs) ≤ limit
    → Registered client c
    → Registered origin c
    → (b : Buffer) × (c' : Copying) × (socksv5_copy_read from c (Recv.received (x ∷ xs))
        ≡ some (SocksV5State.copy, c'))
      × Holds b (waiting ++ x ∷ xs) limit
      × Transfer (other from) b (buffer_of from c) c'
unfolding socksv5_copy_read recv_into
socksv5_copy_read-Transfer from c waiting x xs {limit} h fits rc ro =
    let to = other from in
    let b = received (buffer_of to c) (x ∷ xs) in
    let fits' : (buffer_of to c).write + length (x ∷ xs) ≤ (buffer_of to c).limit =
      omega (arith, fits, h.same_limit) in
    let k : Holds b (waiting ++ x ∷ xs) limit = received_step h (x ∷ xs) fits' in
    let c₂ = moved to b c 0 (length (x ∷ xs)) in
    let u =
      update_target_interests_lem from c₂ (moved-Registered to client b c 0 (length (x ∷ xs)) rc)
        (moved-Registered to origin b c 0 (length (x ∷ xs)) ro) in
    let (m, o) = buffer_of-moved to b c 0 (length (x ∷ xs)) in
    let t = rearmed-Transfer to c₂ in
    let adv = buffer_write_adv-received (buffer_of to c) (x ∷ xs) fits' in
    let t' : Transfer to b (buffer_of from c) (rearmed c₂) = record {
      armed_client = t.armed_client;
      armed_origin = t.armed_origin;
      mine_eq = t.mine_eq ∙ m;
      others_eq = t.others_eq ∙ o ∙ ap (λ s. buffer_of s c) (other-other from);
    } in
    let s : next_state (rearmed c₂) ≡ SocksV5State.copy =
      next_state_lem to (rearmed c₂) (Armed-at t' to)
        (rw (t'.mine_eq) (can_read_behind waiting x xs k)) in
    (
      b,
      rearmed c₂,
      ground
          (arith, can_write_room (buffer_of to c) x xs (h.same_limit) fits, write_ptr h, adv, u, s),
      k,
      t',
    )
