-- ===== src/Pam/Request/Laws.antt =====
-- A request that arrives at once is taken apart and handled, and the reply is put together.
use socks5proxy.Prelude.{
  ℕ, ◌+◌, ◌-◌, ◌*◌, ◌≤◌, ◌≡◌, refl, sym, ◌∙◌, Option, some, List, [], ◌∷◌, arith, length, Memory,
  poke, store, ◌>>=◌, Option-cases, inl, inr, le→leb, append-nil, slice_ext, slice-store,
}
use socks5proxy.Buffer.{Buffer, pos, buffer_init, buffer_reset, buffer_write_ptr, buffer_write_adv}
use socks5proxy.Buffer.View.{Holds, received, buffer_write_adv-received}
use socks5proxy.Buffer.Rules.{read_ptr, write_ptr, received_step}
use socks5proxy.Socket.{Recv, recv_into}
use socks5proxy.Users.{Users}
use socks5proxy.Pam.{PamState, pam_request, PamRequestState, Pam, pam_buffer_size}
use socks5proxy.Pam.Bytes.{Held, buffer_read-Held, read_two, front, roomy, read_into_lem}
use socks5proxy.Pam.Dispatch.{Inputs, handle_pam_request_method}
use socks5proxy.Pam.Request.{
  with_request, block_version, block_method, block_nbody, reply, body_buffer, block_body,
  pam_request_read,
}
use socks5proxy.Socks5.Flow.{falls_through}

module _ {l w : ℕ} (room : w + 2 ≤ l) where
  block_version_lem :
      (c : Pam) {xs : List ℕ}
      → Held c.client_buffer (1 ∷ 0 ∷ xs) l w
      → c.request.state ≡ PamRequestState.ver_n_reserved
      → c.request.reserved ≡ 0
      → (b : Buffer) × (block_version c
          ≡ some (
            falls_through,
            with_request c b (record (c.request) { state = PamRequestState.method }),
          ))
        × Held b xs l w
  unfolding block_version
  block_version_lem c h st re =
      let (b₁, e₁, k₁) = buffer_read-Held h in
      let (b₂, e₂, k₂) = buffer_read-Held k₁ in
      let (p, r) = roomy 2 h room in (b₂, ground (arith, st, re, e₁, e₂, p, r), k₂)

  block_method_lem :
      (c : Pam) {x y : ℕ} {xs : List ℕ}
      → Held c.client_buffer (x ∷ y ∷ xs) l w
      → c.request.state ≡ PamRequestState.method
      → (b : Buffer) × (block_method c
          ≡ some (
            falls_through,
            with_request c b
                (record (c.request) { method = x * 256 + y; state = PamRequestState.nbody }),
          ))
        × Held b xs l w
  unfolding block_method
  block_method_lem c {x} {y} {xs} h st =
      let (b, e, k) = read_two h in
      let (p, r) = roomy 2 h room in
      let (f, g) = front h in
      let q = read_ptr (h.holds) in (b, ground (arith, st, e, p, r, q, f, g), k)

  block_nbody_lem :
      (c : Pam) {x y : ℕ} {xs : List ℕ}
      → Held c.client_buffer (x ∷ y ∷ xs) l w
      → c.request.state ≡ PamRequestState.nbody
      → (b : Buffer) × (block_nbody c
          ≡ some (
            falls_through,
            with_request c b (record (c.request) {
              read_nbody = x * 256 + y;
              state = PamRequestState.read_body;
            }),
          ))
        × Held b xs l w
  unfolding block_nbody
  block_nbody_lem c {x} {y} {xs} h st =
      let (b, e, k) = read_two h in
      let (p, r) = roomy 2 h room in
      let (f, g) = front h in
      let q = read_ptr (h.holds) in (b, ground (arith, st, e, p, r, q, f, g), k)

-- The array of the body as a buffer.
body_buffer_lem :
    (rest : Memory) (xs : List ℕ)
    → length xs ≤ pam_buffer_size
    → (b : Buffer) × (body_buffer (poke (store rest 0 xs) (length xs) 0) (length xs) ≡ some b)
      × Holds b xs pam_buffer_size
unfolding body_buffer buffer_init buffer_reset buffer_write_adv
body_buffer_lem rest xs le =
    let m : Memory = poke (store rest 0 xs) (length xs) 0 in
    (
      record { mem = m; limit = pam_buffer_size; read = 0; write = length xs },
      ground (arith, le→leb (length xs) pam_buffer_size le),
      record {
        valid = record { ordered = omega arith; bounded = le };
        bytes =
            (let z : length xs - 0 ≡ length xs = omega arith in
              rw z (
                slice_ext m (store rest 0 xs) 0 0 (length xs) (λ k p. ground arith)
                ∙ slice-store rest 0 xs));
        same_limit = refl;
      },
    )

block_body_lem :
    (env : Inputs) (c : Pam) (u : Users) (xs : List ℕ) {l w : ℕ}
    → Held c.client_buffer xs l w
    → c.request.state ≡ PamRequestState.read_body
    → c.request.read_nbody ≡ length xs
    → w + length xs ≤ l
    → length xs ≤ pam_buffer_size
    → (b : Buffer) × (m : Memory) × (local : Buffer) × (block_body env (c, u) ≡ (
        handle_pam_request_method env
          (with_request c b (record (c.request) { read_body = m }))
          u
          local
        >>= λ done. reply done >>= λ replied. some (falls_through, replied)))
      × Held b [] l w
      × Holds local xs pam_buffer_size
unfolding block_body
block_body_lem env c u xs h st n room le =
    let (b, e, k) =
      read_into_lem xs [] 0 c.client_buffer c.request.read_body (rw (sym (append-nil xs)) at h) in
    let (p, r) = roomy (length xs) h room in
    let (local, e', k') = body_buffer_lem c.request.read_body xs le in
    (
      b,
      poke (store c.request.read_body 0 xs) (length xs) 0,
      local,
      rw (st, n, p) (ground (arith, r, e, e')),
      k,
      k',
    )

-- What the server does with a method and a body: handle it, and reply.
abbrev pub served : Inputs → Pam → Users → Buffer → Option (PamState × Pam × Users)
served env c u b = do
  done ← handle_pam_request_method env c u b
  (c', u') ← reply done
  some (pam_request, c', u')

-- The blocks one after the other.
read_blocks :
    (env : Inputs) (c c₁ c₂ c₃ c₄ : Pam) (u : Users) (x : ℕ) (xs : List ℕ) (p : ℕ × ℕ)
    (b local : Buffer)
    → buffer_write_ptr c.client_buffer ≡ some p
    → buffer_write_adv
        (record (c.client_buffer) {
          mem = store c.client_buffer.mem c.client_buffer.write (x ∷ xs);
        })
        (pos (length (x ∷ xs)))
      ≡ some b
    → block_version (record c { client_buffer = b }) ≡ some (falls_through, c₁)
    → block_method c₁ ≡ some (falls_through, c₂)
    → block_nbody c₂ ≡ some (falls_through, c₃)
    → block_body env (c₃, u) ≡ (
        handle_pam_request_method env c₄ u local >>= λ done.
        reply done >>= λ replied. some (falls_through, replied))
    → pam_request_read env c u (Recv.received (x ∷ xs)) ≡ served env c₄ u local
unfolding pam_request_read recv_into
read_blocks env c c₁ c₂ c₃ c₄ u x xs p b local a₀ a₁ e₁ e₂ e₃ e₄ =
    elim (Option-cases (handle_pam_request_method env c₄ u local)) [
      | inl n ↦ ground (arith)
      | inr (d, n) ↦ elim (Option-cases (reply d)) [
        | inl m ↦ ground arith
        | inr (r, m) ↦ ground arith
      ]
    ]

-- A body of as many bytes as the header's last two say.
abbrev pub request_bytes : ℕ → ℕ → ℕ → ℕ → List ℕ → List ℕ
request_bytes mh ml nh nl body = 1 ∷ 0 ∷ mh ∷ ml ∷ nh ∷ nl ∷ body

-- On a connection that waits for a request, with an empty buffer and room for the request and its
-- body once more, a request that one `recv` returns is handled with its method and its body,
-- big-endian, and replied to.
pub pam_request_read_lem :
    (env : Inputs) (c : Pam) (u : Users) (mh ml nh nl : ℕ) (body : List ℕ) {l : ℕ}
    → Holds c.client_buffer [] l
    → c.request.state ≡ PamRequestState.ver_n_reserved
    → c.request.reserved ≡ 0
    → length body ≡ nh * 256 + nl
    → c.client_buffer.write + 6 + length body + length body + 2 ≤ l
    → l ≤ pam_buffer_size
    → (c' : Pam) × (local : Buffer) × (pam_request_read env c u
          (Recv.received (request_bytes mh ml nh nl body))
        ≡ served env c' u local)
      × (c'.request.method ≡ mh * 256 + ml)
      × Holds local body pam_buffer_size
      × Holds c'.client_buffer [] l
      × (c'.auth ≡ c.auth)
      × (c'.request.write_nbody ≡ c.request.write_nbody)
pam_request_read_lem env c u mh ml nh nl body {l} h st re n room le =
    let bytes = request_bytes mh ml nh nl body in
    let w = c.client_buffer.write + (6 + length body) in
    let h₀ : Held (received c.client_buffer bytes) bytes l w = record {
      holds = received_step h bytes (ground (arith, h.same_limit));
      below = omega arith;
    } in
    let c₀ : Pam = record c { client_buffer = received c.client_buffer bytes } in
    let q₀ = write_ptr h in
    let a₀ = buffer_write_adv-received c.client_buffer bytes (ground (arith, h.same_limit)) in
    let r₂ : w + 2 ≤ l = omega (arith, room) in
    let (b₁, e₁, k₁) = block_version_lem r₂ c₀ h₀ st re in
    let c₁ = with_request c₀ b₁ (record (c.request) { state = PamRequestState.method }) in
    let (b₂, e₂, k₂) = block_method_lem r₂ c₁ k₁ refl in
    let c₂ =
      with_request c₁ b₂
        (record (c₁.request) { method = mh * 256 + ml; state = PamRequestState.nbody }) in
    let (b₃, e₃, k₃) = block_nbody_lem r₂ c₂ k₂ refl in
    let c₃ =
      with_request c₂ b₃
        (record (c₂.request) { read_nbody = nh * 256 + nl; state = PamRequestState.read_body }) in
    let (b₄, m, local, e₄, k₄, v) =
      block_body_lem env c₃ u body k₃ refl (sym n) (omega (arith, room))
        (omega (arith, room, le)) in
    let c₄ = with_request c₃ b₄ (record (c₃.request) { read_body = m }) in
    (
      c₄,
      local,
      read_blocks env c c₁ c₂ c₃ c₄ u 1 _ _ _ local q₀ a₀ e₁ e₂ e₃ e₄,
      refl,
      v,
      k₄.holds,
      refl,
      refl,
    )
