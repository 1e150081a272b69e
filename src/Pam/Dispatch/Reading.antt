-- ===== src/Pam/Dispatch/Reading.antt =====
-- What the methods that only read put into the reply.
use socks5proxy.Prelude.{
  ℕ, zero, suc, ◌+◌, ◌%◌, ◌^◌, ◌<◌, ◌≡◌, refl, sym, ap, ap₂, ◌∙◌, true, false, some, List, ◌∷◌,
  ◌++◌, arith, length, length-append, replicate, leb, le→leb, gt→leb, Memory, poke, slice, store,
  store-append, store_above, slice_ext, slice-store, slice-append, length-slice,
}
use socks5proxy.Users.{Users}
use socks5proxy.Users.Find.{accounts, at_iter}
use socks5proxy.Users.Listing.{listing, users_get_connected_users_list_lem}
use socks5proxy.Pam.{Pam, pam_buffer_size}
use socks5proxy.Pam.Dispatch.{zeros, users_message, handle_get_connected_users_list}

slice-zeros : (i n : ℕ) → slice zeros i n ≡ replicate n 0
slice-zeros i zero = refl
slice-zeros i (suc n) = ap (λ t. 0 ∷ t) (slice-zeros (i + 1) n)

-- Bytes stored at the front of a memory of zeros, and what follows them.
front-zeros :
    (bs : List ℕ) (n : ℕ)
    → slice (poke (store zeros 0 bs) (length bs) 0) 0 (length bs + n) ≡ bs ++ replicate n 0
front-zeros bs n =
    let m : Memory = poke (store zeros 0 bs) (length bs) 0 in
    slice-append m 0 (length bs) n
    ∙ ap₂ ◌++◌
        (slice_ext m (store zeros 0 bs) 0 0 (length bs) (λ k p. ground arith)
          ∙ slice-store zeros 0 bs)
        (slice_ext m zeros (0 + length bs) 0 n
            (λ k p. ground (arith, store_above zeros 0 bs (0 + length bs + k) (omega arith)))
          ∙ slice-zeros 0 n)

-- With accounts whose lines have at most 65499 bytes, `handle_get_connected_users_list` answers with
-- its first message, then the line of every account in the order of the list, then as many zeros as
-- the message has bytes, with the status of the request before, and moves nothing of the accounts
-- but the iterator.
pub handle_get_connected_users_list_lem :
    (c : Pam) (u : Users)
    → length (listing (accounts u)) + 36 < pam_buffer_size
    → (c' : Pam) × (k : ℕ) × (handle_get_connected_users_list c u ≡ some (c', at_iter u k))
      × (c'.request.write_nbody ≡ length (listing (accounts u)) + 36)
      × (slice c'.request.write_body 0 c'.request.write_nbody
          ≡ (users_message ++ listing (accounts u)) ++ replicate 18 0)
      × (c'.request.status ≡ c.request.status)
unfolding handle_get_connected_users_list
handle_get_connected_users_list_lem c u h =
    let text = listing (accounts u) in
    let (k, e) =
      users_get_connected_users_list_lem u pam_buffer_size (store zeros 0 users_message) 18
        (omega arith) in
    let all = users_message ++ text in
    let size = length-append users_message text in
    let b : Memory = poke (store (store zeros 0 users_message) 18 text) (18 + length text) 0 in
    let n = 18 + (18 + length text) in
    let some_text : leb n 18 ≡ false = gt→leb n 18 (omega arith) in
    let fits : leb n pam_buffer_size ≡ true = le→leb n pam_buffer_size (omega (arith, h)) in
    let body : Memory = store c.request.write_body 0 (slice b 0 n) in
    let same : b ≡ poke (store zeros 0 all) (length all) 0 =
      ap₂ (λ m i. poke m i 0) (sym (store-append zeros 0 users_message text))
        (omega (arith, size)) in
    let total : n ≡ length all + 18 = omega (arith, size) in
    let nbody : n % 2 ^ 16 ≡ length text + 36 = omega (arith, h) in
    let whole : n % 2 ^ 16 ≡ n = omega (arith, h) in
    let shown : slice body 0 (n % 2 ^ 16) ≡ all ++ replicate 18 0 =
      ap (slice body 0) (whole ∙ sym (length-slice b 0 n))
      ∙ slice-store c.request.write_body 0 (slice b 0 n)
      ∙ ap₂ (λ m i. slice m 0 i) same total
      ∙ front-zeros all 18 in
    (
      record c { request = record (c.request) { write_body = body; write_nbody = n % 2 ^ 16 } },
      k,
      rw (e, some_text, fits) refl,
      nbody,
      shown,
      refl,
    )
