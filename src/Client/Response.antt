-- ===== src/Client/Response.antt =====
-- `receive_response` of src/client/client_utils.c, on what its two calls of `recv` return.
use socks5proxy.Prelude.{
  ℕ, ◌+◌, ◌*◌, ◌/◌, ◌%◌, ◌≤◌, ◌<◌, ◌≡◌, refl, not, Option, none, some, List, [], ◌∷◌, ltb, ◌==◌,
  arith, length, take, drop, Memory, store, slice, length-slice, if◌then◌else◌, Bool-cases, inl,
  inr, le→ltb,
}
use socks5proxy.Buffer.View.{Holds}
use socks5proxy.Socket.{Recv, failed, received}
use socks5proxy.Users.{Users}
use socks5proxy.Pam.{Pam, pam_version_1}
use socks5proxy.Pam.Request.{reply}
use socks5proxy.Pam.Request.Reply.{reply_lem}

-- `ServerResponse`; a body that is `none` is NULL.
pub record ServerResponse : Type 0 where
  pub ver : ℕ
  pub status : ℕ
  pub nbody : ℕ
  pub body : Option (List ℕ)

-- The end of the function: the body, if there is one.
unfoldable pub receive_body : ServerResponse → Recv → Option ServerResponse
receive_body resp second =
    if not (ltb 0 resp.nbody) then some (record resp { body = none }) else elim second [
      | failed ↦ none
      | received bytes ↦
          if ltb (length bytes) resp.nbody then none else some (record resp { body = some bytes })
    ]

-- The result is `none` for NULL. `garbage` is what the array `header` holds before the first `recv`.
unfoldable pub receive_response : Memory → Recv → Recv → Option ServerResponse
receive_response garbage first second = elim first [
  | failed ↦ none
  | received bytes ↦
      if ltb (length bytes) 2
      then none
      else (let header = store garbage 0 bytes in
          let resp : ServerResponse = record {
            ver = header 0;
            status = header 1;
            nbody = 0;
            body = none;
          } in
          if not (header 1 == 0)
          then some resp
          else receive_body (record resp { nbody = header 2 * 256 + header 3 }) second)
]

-- What the client makes of a reply: the body is read only behind PAM_REQUEST_SUCCESS, and only if
-- there is one.
unfoldable pub response_of : ℕ → ℕ → List ℕ → ServerResponse
response_of status n body =
    if status == 0
    then record {
      ver = pam_version_1;
      status = status;
      nbody = n;
      body = if n == 0 then none else some body;
    }
    else record { ver = pam_version_1; status = status; nbody = 0; body = none }

receive_response_lem :
    (garbage : Memory) (status : ℕ) (body : List ℕ)
    → length body < 65536
    → receive_response garbage
        (received (pam_version_1 ∷ status ∷ length body / 256 ∷ length body % 256 ∷ []))
        (received body)
      ≡ some (response_of status (length body) body)
unfolding receive_response receive_body response_of
receive_response_lem garbage status body h =
    let whole : length body / 256 * 256 + length body % 256 ≡ length body = omega arith in
    let enough = le→ltb (length body) (length body) (omega arith) in
    elim (Bool-cases (status == 0)) [
      | inr f ↦ rw f refl
      | inl t ↦
          rw (t, whole)
            (elim (Bool-cases (length body == 0)) [
              | inl z ↦ ground (arith, z)
              | inr z ↦ ground (arith, z, enough)
            ])
    ]

-- The reply that the server puts together, with the length of its body in two bytes and room for it,
-- is what the client reads: the status, and behind PAM_REQUEST_SUCCESS the body, when the first
-- `recv` returns the four bytes of the header and the second the rest.
pub reply-receive_response :
    (c : Pam) (u : Users) (garbage : Memory) {l : ℕ}
    → c.client_buffer.limit ≡ l
    → c.request.write_nbody + 4 ≤ l
    → c.request.write_nbody < 65536
    → (c' : Pam) × (bytes : List ℕ) × (reply (c, u) ≡ some (c', u))
      × Holds c'.client_buffer bytes l
      × (receive_response garbage (received (take 4 bytes)) (received (drop 4 bytes))
          ≡ some (
              response_of c.request.status c.request.write_nbody
                (slice c.request.write_body 0 c.request.write_nbody)))
reply-receive_response c u garbage lim room small =
    let n = c.request.write_nbody in
    let body = slice c.request.write_body 0 n in
    let size : length body ≡ n = length-slice c.request.write_body 0 n in
    let (c', e, h, i, a) = reply_lem c u lim room in
    (
      c',
      pam_version_1 ∷ c.request.status ∷ n / 256 ∷ n % 256 ∷ body,
      e,
      h,
      rw size at (receive_response_lem garbage c.request.status body (omega (arith, size, small))),
    )
