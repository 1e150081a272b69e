-- ===== src/Copy/Write.antt =====
-- `socksv5_copy_write`, and how one direction of a copied connection ends.
use socks5proxy.Prelude.{
  ℕ, suc, ◌≤◌, ◌≡◌, refl, ap, ◌∙◌, Bool, true, false, not, ◌&&◌, some, List, [], ◌∷◌, length, drop,
  arith, ◌==◌, if◌then◌else◌,
}
use socks5proxy.Buffer.{Buffer, pos, buffer_can_write}
use socks5proxy.Buffer.View.{Holds}
use socks5proxy.Buffer.Rules.{read_ptr, write_ptr, read_adv, can_read_cons}
use socks5proxy.Socket.{Recv, recv_into}
use socks5proxy.Socks5.{SocksV5State}
use socks5proxy.Copy.{
  Side, client, origin, other, Copying, buffer_of, with_buffer, copy_of, with_copy, interest,
  next_state, socksv5_copy_read, socksv5_copy_write, stop_reading, stop_writing, clear_read,
  clear_write, selector_set_interest,
}
use socks5proxy.Copy.Armed.{
  Registered, Transfer, rearmed, rearmed-Transfer, update_target_interests_lem, moved,
  moved-Registered, buffer_of-moved,
}

-- If `send` takes `n > 0` of the bytes that wait for a side, on a connection whose two descriptors
-- are registered, then `socksv5_copy_write` drops exactly these from what waits, leaves what waits
-- for the other side alone, and arms both sides as their buffers ask.
pub socksv5_copy_write-Transfer :
    (side : Side) (c : Copying) (x : ℕ) (xs : List ℕ) (n : ℕ) {limit : ℕ}
    → Holds (buffer_of side c) (x ∷ xs) limit
    → suc n ≤ length (x ∷ xs)
    → Registered client c
    → Registered origin c
    → (b : Buffer) × (c' : Copying) × (socksv5_copy_write side c (pos (suc n))
        ≡ some (next_state c', c'))
      × Holds b (drop (suc n) (x ∷ xs)) limit
      × Transfer side b (buffer_of (other side) c) c'
unfolding socksv5_copy_write
socksv5_copy_write-Transfer side c x xs n {limit} h le rc ro =
    let (b, adv, k) = read_adv h (suc n) le in
    let c₂ = moved side b c (suc n) 0 in
    let u =
      update_target_interests_lem side c₂ (moved-Registered side client b c (suc n) 0 rc)
        (moved-Registered side origin b c (suc n) 0 ro) in
    let (m, o) = buffer_of-moved side b c (suc n) 0 in
    let t = rearmed-Transfer side c₂ in
    (
      b,
      rearmed c₂,
      ground (arith, can_read_cons h, read_ptr h, adv, u),
      k,
      record {
        armed_client = t.armed_client;
        armed_origin = t.armed_origin;
        mine_eq = t.mine_eq ∙ m;
        others_eq = t.others_eq ∙ o;
      },
    )

clear_read_lem : (r w : Bool) → clear_read (interest r w) ≡ interest false w
unfolding clear_read interest
clear_read_lem true true = refl
clear_read_lem true false = refl
clear_read_lem false true = refl
clear_read_lem false false = refl

clear_write_lem : (r w : Bool) → clear_write (interest r w) ≡ interest r false
unfolding clear_write interest
clear_write_lem true true = refl
clear_write_lem true false = refl
clear_write_lem false true = refl
clear_write_lem false false = refl

-- One direction of the connection, from a side to the other, has ended.
pub record Ended (from : Side) (w r : Bool) (c c' : Copying) : Type 0 where
  pub from_interests : (copy_of from c').interests ≡ interest false w
  pub from_told : (copy_of from c').item ≡ some (interest false w)
  pub to_interests : (copy_of (other from) c').interests ≡ interest r false
  pub to_told : (copy_of (other from) c').item ≡ some (interest r false)
  pub from_shut : (copy_of from c').shut.shut_rd ≡ true
  pub to_shut : (copy_of (other from) c').shut.shut_wr ≡ true

stays : (r w : Bool) → ((interest false w == 0) && (interest r false == 0)) ≡ (not w && not r)
unfolding interest
stays true true = refl
stays true false = refl
stays false true = refl
stays false false = refl

stays' : (r w : Bool) → ((interest r false == 0) && (interest false w == 0)) ≡ (not w && not r)
unfolding interest
stays' true true = refl
stays' true false = refl
stays' false true = refl
stays' false false = refl

stop_writing-Ended :
    (from : Side) (r w r' w' : Bool) (c : Copying)
    → Registered client c
    → Registered origin c
    → (copy_of from c).interests ≡ interest r w
    → (copy_of (other from) c).interests ≡ interest r' w'
    → Ended from w r' c (stop_writing (other from) (stop_reading from c))
      × (next_state (stop_writing (other from) (stop_reading from c))
          ≡ (if not w && not r' then SocksV5State.done else SocksV5State.copy))
unfolding stop_writing stop_reading selector_set_interest with_copy copy_of other next_state
stop_writing-Ended client r w r' w' c (i, p) (j, q) e f =
    let a : clear_read (copy_of client c).interests ≡ interest false w =
      ap clear_read e ∙ clear_read_lem r w in
    let b : clear_write (copy_of origin c).interests ≡ interest r' false =
      ap clear_write f ∙ clear_write_lem r' w' in
    rw (p, q, a, b, stays r' w)
      (
        record {
          from_interests = refl;
          from_told = refl;
          to_interests = refl;
          to_told = refl;
          from_shut = refl;
          to_shut = refl;
        },
        refl,
      )
stop_writing-Ended origin r w r' w' c (i, p) (j, q) e f =
    let a : clear_read (copy_of origin c).interests ≡ interest false w =
      ap clear_read e ∙ clear_read_lem r w in
    let b : clear_write (copy_of client c).interests ≡ interest r' false =
      ap clear_write f ∙ clear_write_lem r' w' in
    rw (p, q, a, b, stays' r' w)
      (
        record {
          from_interests = refl;
          from_told = refl;
          to_interests = refl;
          to_told = refl;
          from_shut = refl;
          to_shut = refl;
        },
        refl,
      )

same_buffer : (side : Side) (c : Copying) → with_buffer side (buffer_of side c) c ≡ c
unfolding with_buffer buffer_of
same_buffer client c = refl
same_buffer origin c = refl

-- When `recv` fails or finds the end of the stream, on a connection whose two descriptors are
-- registered, and with room in the buffer that is read into, that direction is shut down on both
-- descriptors: this side is not read and the other not written any more, also if bytes wait for
-- it. The opposite direction keeps its interests, and the connection is done exactly if there are
-- none.
pub socksv5_copy_read-Ended :
    (from : Side) (c : Copying) (waiting : List ℕ) {limit : ℕ} (eof r w r' w' : Bool)
    → Holds (buffer_of (other from) c) waiting limit
    → buffer_can_write (buffer_of (other from) c) ≡ true
    → Registered client c
    → Registered origin c
    → (copy_of from c).interests ≡ interest r w
    → (copy_of (other from) c).interests ≡ interest r' w'
    → (c' : Copying) × (socksv5_copy_read from c (if eof then Recv.received [] else Recv.failed)
        ≡ some (if not w && not r' then SocksV5State.done else SocksV5State.copy, c'))
      × Ended from w r' c c'
unfolding socksv5_copy_read recv_into
socksv5_copy_read-Ended from c waiting true r w r' w' h room rc ro e f =
    let (d, n) = stop_writing-Ended from r w r' w' c rc ro e f in
    (
      stop_writing (other from) (stop_reading from c),
      ground (arith, room, write_ptr h, n, same_buffer (other from) c),
      d,
    )
socksv5_copy_read-Ended from c waiting false r w r' w' h room rc ro e f =
    let (d, n) = stop_writing-Ended from r w r' w' c rc ro e f in
    (
      stop_writing (other from) (stop_reading from c),
      ground (arith, room, write_ptr h, n, same_buffer (other from) c),
      d,
    )
