-- ===== src/Pam/Request/Reply.antt =====
-- The reply to a management request, byte by byte, and when it has left.
use socks5proxy.Prelude.{
  ℕ, zero, suc, ◌+◌, ◌-◌, ◌/◌, ◌%◌, ◌≤◌, ◌≡◌, refl, some, List, [], ◌∷◌, ◌++◌, ◌==◌, arith, length,
  Memory, slice, Bool-cases, inl, inr, append-nil, append_assoc, if◌then◌else◌, length-drop,
}
use socks5proxy.Buffer.{Buffer, pos, buffer_reset}
use socks5proxy.Buffer.View.{Holds, received}
use socks5proxy.Buffer.Rules.{read_ptr, read_adv, can_read_iff, write_step}
use socks5proxy.Selector.{op_write, op_noop}
use socks5proxy.Users.{Users}
use socks5proxy.Pam.{pam_request, pam_done, Pam, pam_version_1}
use socks5proxy.Pam.Request.{write_from, reply, pam_request_write}

write_from_lem :
    (n i : ℕ) (body : Memory) (b : Buffer) {xs : List ℕ} {l : ℕ}
    → Holds b xs l
    → b.write + n ≤ l
    → (b' : Buffer) × (write_from n i body b ≡ some b') × Holds b' (xs ++ slice body i n) l
unfolding write_from
write_from_lem zero i body b {xs} h room = (b, refl, rw (append-nil xs) h)
write_from_lem (suc n) i body b {xs} {l} h room =
    let (e, k) = write_step h (body i) (omega (arith, room, h.same_limit)) in
    let (b', e', k') =
      write_from_lem n (i + 1) body (received b (body i ∷ [])) k (omega (arith, room)) in
    (b', rw e e', rw (append_assoc xs (body i ∷ []) (slice body (i + 1) n)) at k')

pub reset-Holds : (b : Buffer) {l : ℕ} → b.limit ≡ l → Holds (buffer_reset b) [] l
unfolding buffer_reset
reset-Holds b e = record {
  valid = record { ordered = omega arith; bounded = omega arith };
  bytes = refl;
  same_limit = e;
}

-- With room for it, the reply is the version, the status, the length of the body in two bytes, the
-- higher first, and that many bytes of the body, alone in the buffer, and the connection waits to
-- write.
pub reply_lem :
    (c : Pam) (u : Users) {l : ℕ}
    → c.client_buffer.limit ≡ l
    → c.request.write_nbody + 4 ≤ l
    → (c' : Pam) × (reply (c, u) ≡ some (c', u))
      × Holds c'.client_buffer
          (pam_version_1
            ∷ c.request.status
            ∷ c.request.write_nbody / 256
            ∷ c.request.write_nbody % 256
            ∷ slice c.request.write_body 0 c.request.write_nbody)
          l
      × (c'.client_interest ≡ op_write)
      × (c'.auth ≡ c.auth)
unfolding reply buffer_reset
reply_lem c u {l} lim room =
    let q = c.request in
    let b₀ = buffer_reset c.client_buffer in
    let (e₁, h₁) =
      write_step (reset-Holds c.client_buffer lim) pam_version_1 (omega (arith, lim, room)) in
    let b₁ = received b₀ (pam_version_1 ∷ []) in
    let (e₂, h₂) = write_step h₁ q.status (omega (arith, lim, room)) in
    let b₂ = received b₁ (q.status ∷ []) in
    let (e₃, h₃) = write_step h₂ (q.write_nbody / 256) (omega (arith, lim, room)) in
    let b₃ = received b₂ (q.write_nbody / 256 ∷ []) in
    let (e₄, h₄) = write_step h₃ (q.write_nbody % 256) (omega (arith, lim, room)) in
    let b₄ = received b₃ (q.write_nbody % 256 ∷ []) in
    let (b₅, e₅, h₅) = write_from_lem q.write_nbody 0 q.write_body b₄ h₄ (omega (arith, room)) in
    (
      record c { client_buffer = b₅; client_interest = op_write },
      rw (e₁, e₂, e₃, e₄, e₅) refl,
      h₅,
      refl,
      refl,
    )

-- On a valid buffer, when `send` has taken `n` of the reply's bytes, `pam_request_write` ends the
-- connection if none is left, and stays in PAM_REQUEST with the rest otherwise.
pub pam_request_write_lem :
    (c : Pam) (bytes : List ℕ) (n : ℕ) {limit : ℕ}
    → Holds c.client_buffer bytes limit
    → n ≤ length bytes
    → (c' : Pam) × (pam_request_write c (pos n)
        ≡ some ((if length bytes - n == 0 then pam_done else pam_request), c'))
      × (c'.request ≡ c.request)
unfolding pam_request_write
pam_request_write_lem c bytes n h le =
    let (b, e, k) = read_adv h n le in
    let r = can_read_iff k in
    let d = length-drop n bytes in
    elim (Bool-cases (length bytes - n == 0)) [
      | inl z ↦ (
        record c { client_buffer = buffer_reset b; client_interest = op_noop },
        ground (arith, read_ptr h, e, r, d),
        refl,
      )
      | inr z ↦ (record c { client_buffer = b }, ground (arith, read_ptr h, e, r, d), refl)
    ]
