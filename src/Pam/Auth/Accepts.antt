-- ===== src/Pam/Auth/Accepts.antt =====
-- A client that sends a name and a password at once is answered by the accounts.
use socks5proxy.Prelude.{
  ℕ, ◌+◌, ◌≤◌, ◌<◌, ◌≡◌, refl, sym, ap, ◌∙◌, Option, none, some, List, [], ◌∷◌, ◌++◌, arith, length,
  length-append, Memory, poke, store, store-poke, lt→ltb, le→ltb, append-nil, Bool-cases, inl, inr,
  if◌then◌else◌,
}
use socks5proxy.Buffer.{Buffer, pos, buffer_write_ptr, buffer_write_adv, buffer_reset}
use socks5proxy.Buffer.View.{Holds, received, buffer_write_adv-received}
use socks5proxy.Buffer.Rules.{read_ptr, write_ptr, received_step, can_read_cons, write_two}
use socks5proxy.CString.Laws.{NoNul, c_str_of_NoNul}
use socks5proxy.Selector.{op_write}
use socks5proxy.Socket.{Recv, recv_into}
use socks5proxy.Socks5.Flow.{falls_through}
use socks5proxy.Users.{User, Users, str_equal}
use socks5proxy.Users.Find.{accounts, at_iter}
use socks5proxy.Users.Accounts.{lookup_user}
use socks5proxy.Users.Map.{lookup_ext}
use socks5proxy.Users.Laws.{authenticate_spec, user_authenticate_lem}
use socks5proxy.Pam.{
  pam_auth, PamAuthState, Pam, pam_version_1, pam_auth_success, pam_auth_failure, terminate,
  array_255,
}
use socks5proxy.Pam.Auth.{
  with_auth, block_lengths, block_username, block_pass, read_available, answer, pam_auth_read,
}
use socks5proxy.Pam.Bytes.{Held, buffer_read-Held, roomy, read_into_lem}
use socks5proxy.Pam.Methods.Strings.{c_str-array}
use socks5proxy.Pam.Methods.Administrator.{authenticate_ext}
use socks5proxy.Pam.Request.Reply.{reset-Holds}

-- All of the bytes are there, so that the loop does not end early.
read_available_lem :
    (xs ys : List ℕ) (i : ℕ) (b : Buffer) (array : Memory) {l w : ℕ}
    → Held b (xs ++ ys) l w
    → (b' : Buffer) × (read_available (length xs) i b array ≡ some (b', store array i xs))
      × Held b' ys l w
unfolding read_available
read_available_lem [] ys i b array h = (b, refl, h)
read_available_lem (x ∷ xs) ys i b array h =
    let c = can_read_cons (h.holds) in
    let (b₁, e, k) = buffer_read-Held h in
    let (b', e', k') = read_available_lem xs ys (i + 1) b₁ (poke array i x) k in
    (
      b',
      rw (c, e) (e' ∙ ap (λ m. some (b', m)) (store-poke array i x (i + 1) xs (omega arith))),
      k',
    )

-- What a name and a password are answered with.
unfoldable pub auth_answer : Option User → List ℕ → ℕ
auth_answer found password = elim found [
  | none ↦ pam_auth_failure
  | some x ↦ if str_equal x.password password then pam_auth_success else pam_auth_failure
]

answer-authenticate :
    (found : Option User) (password : List ℕ)
    → answer (authenticate_spec found password) ≡ some (auth_answer found password)
unfolding answer authenticate_spec auth_answer
answer-authenticate none password = refl
answer-authenticate (some x) password = elim (Bool-cases (str_equal x.password password)) [
  | inl t ↦ rw t refl
  | inr f ↦ rw f refl
]

module _ {l w : ℕ} (c : Pam) (u : Users) where
  block_lengths_lem :
      (n m : ℕ) {xs : List ℕ}
      → Held c.client_buffer (1 ∷ n ∷ m ∷ xs) l w
      → w + 3 ≤ l
      → 0 < n
      → 0 < m
      → c.auth.state ≡ PamAuthState.ver_n_nuser_n_npass
      → (b : Buffer) × (block_lengths (c, u)
          ≡ some (
            falls_through,
            (
              with_auth c b
                  (record (c.auth) { n_user = n; n_pass = m; state = PamAuthState.username }),
              u,
            ),
          ))
        × Held b xs l w
  unfolding block_lengths
  block_lengths_lem n m h room p₁ p₂ st =
      let (b₁, e₁, k₁) = buffer_read-Held h in
      let (b₂, e₂, k₂) = buffer_read-Held k₁ in
      let (b₃, e₃, k₃) = buffer_read-Held k₂ in
      let (p, r) = roomy 3 h room in (b₃, ground (arith, st, e₁, e₂, e₃, p, r), k₃)

  block_username_lem :
      (name ys : List ℕ)
      → Held c.client_buffer (name ++ ys) l w
      → length name < 255
      → c.auth.n_user ≡ length name
      → c.auth.state ≡ PamAuthState.username
      → (b : Buffer) × (block_username (c, u)
          ≡ some (
            falls_through,
            (
              with_auth c b (record (c.auth) {
                username = poke (store c.auth.username 0 name) (length name) 0;
                state = PamAuthState.pass;
              }),
              u,
            ),
          ))
        × Held b ys l w
  unfolding block_username terminate
  block_username_lem name ys h lt n st =
      let (b, e, k) = read_into_lem name ys 0 c.client_buffer c.auth.username h in
      let p = read_ptr (h.holds) in
      let r = le→ltb (length (name ++ ys)) (length name) (omega (arith, length-append name ys)) in
      let t = lt→ltb (length name) 255 lt in (b, rw (st, n, p) (ground (arith, e, r, t)), k)

  block_pass_lem :
      (password : List ℕ)
      → Held c.client_buffer password l w
      → 2 ≤ l
      → length password < 255
      → NoNul password
      → c.auth.n_pass ≡ length password
      → c.auth.state ≡ PamAuthState.pass
      → (c' : Pam) × (k : ℕ) × (block_pass (c, u) ≡ some (falls_through, (c', at_iter u k)))
        × Holds c'.client_buffer
            (pam_version_1
              ∷ auth_answer (lookup_user (array_255 c.auth.username) (accounts u)) password
              ∷ [])
            l
        × (c'.client_interest ≡ op_write)
  unfolding block_pass terminate buffer_reset
  block_pass_lem password h room lt nul n st =
      let rest : Held c.client_buffer (password ++ []) l w = rw (append-nil password) h in
      let (b, e, k) = read_available_lem password [] 0 c.client_buffer c.auth.pass rest in
      let p = read_ptr (h.holds) in
      let r = le→ltb (length password) (length password) (omega arith) in
      let t = lt→ltb (length password) 255 lt in
      let pass' : Memory = poke (store c.auth.pass 0 password) (length password) 0 in
      let name = array_255 c.auth.username in
      let found = lookup_user name (accounts u) in
      let (i, a) = user_authenticate_lem u name (array_255 pass') in
      let same : authenticate_spec found (array_255 pass') ≡ authenticate_spec found password =
        authenticate_ext u name name (array_255 pass') password refl
          (c_str-array c.auth.pass password nul lt ∙ sym (c_str_of_NoNul password nul)) in
      let st' : answer (authenticate_spec found (array_255 pass'))
          ≡ some (auth_answer found password) =
        ap answer same ∙ answer-authenticate found password in
      let (b₁, b₂, w₁, w₂, k₂) =
        write_two (reset-Holds b (k.holds.same_limit)) pam_version_1 (auth_answer found password)
          (omega (arith, room, k.holds.same_limit)) in
      (
        record (with_auth c b₂
            (record (c.auth) { pass = pass'; status = auth_answer found password })) {
              client_interest = op_write;
            },
        i,
        rw (st, n, p) (ground (arith, r, e, t, a, st', w₁, w₂)),
        k₂,
        refl,
      )

auth_blocks :
    (c c₁ c₂ c₃ : Pam) (u u' : Users) (x : ℕ) (xs : List ℕ) (p : ℕ × ℕ) (b : Buffer)
    → buffer_write_ptr c.client_buffer ≡ some p
    → buffer_write_adv
        (record (c.client_buffer) {
          mem = store c.client_buffer.mem c.client_buffer.write (x ∷ xs);
        })
        (pos (length (x ∷ xs)))
      ≡ some b
    → block_lengths (record c { client_buffer = b }, u) ≡ some (falls_through, (c₁, u))
    → block_username (c₁, u) ≡ some (falls_through, (c₂, u))
    → block_pass (c₂, u) ≡ some (falls_through, (c₃, u'))
    → pam_auth_read c u (Recv.received (x ∷ xs)) ≡ some (pam_auth, c₃, u')
unfolding pam_auth_read recv_into
auth_blocks c c₁ c₂ c₃ u u' x xs p b a₀ a₁ e₁ e₂ e₃ = ground arith

-- A name and a password, each behind its length, as a client sends them.
abbrev pub credentials : ℕ → List ℕ → ℕ → List ℕ → List ℕ
credentials a name b password = 1 ∷ a ∷ b ∷ name ++ password

-- On a connection that waits for credentials, with an empty buffer and room, a name and a password
-- of 1 to 254 bytes without NUL that one `recv` returns are answered with PAM_AUTH_SUCCESS if an
-- account has that name and that password, and with PAM_AUTH_FAILURE otherwise, behind the version
-- and alone in the buffer.
pub pam_auth_read_lem :
    (c : Pam) (u : Users) (name password : List ℕ) {l : ℕ}
    → Holds c.client_buffer [] l
    → c.auth.state ≡ PamAuthState.ver_n_nuser_n_npass
    → NoNul name
    → NoNul password
    → 0 < length name
    → 0 < length password
    → length name < 255
    → length password < 255
    → c.client_buffer.write + length name + length password + 6 ≤ l
    → (c' : Pam) × (k : ℕ) × (pam_auth_read c u
          (Recv.received (credentials (length name) name (length password) password))
        ≡ some (pam_auth, c', at_iter u k))
      × Holds c'.client_buffer
          (pam_version_1 ∷ auth_answer (lookup_user name (accounts u)) password ∷ [])
          l
      × (c'.client_interest ≡ op_write)
pam_auth_read_lem c u name password {l} h st n₁ n₂ p₁ p₂ l₁ l₂ room =
    let bytes = credentials (length name) name (length password) password in
    let size = length-append name password in
    let w = c.client_buffer.write + (3 + length name + length password) in
    let fits : c.client_buffer.write + length bytes ≤ c.client_buffer.limit =
      omega (arith, size, room, h.same_limit) in
    let q₀ = write_ptr h in
    let a₀ = buffer_write_adv-received c.client_buffer bytes fits in
    let c₀ : Pam = record c { client_buffer = received c.client_buffer bytes } in
    let h₀ : Held (received c.client_buffer bytes) bytes l w = record {
      holds = received_step h bytes fits;
      below = omega (arith, size);
    } in
    let (b₁, e₁, k₁) =
      block_lengths_lem {w = w} c₀ u (length name) (length password) h₀ (omega (arith, room)) p₁ p₂
        st in
    let a₁ = record (c.auth) {
      n_user = length name;
      n_pass = length password;
      state = PamAuthState.username;
    } in
    let c₁ = with_auth c₀ b₁ a₁ in
    let (b₂, e₂, k₂) = block_username_lem c₁ u name password k₁ l₁ refl refl in
    let stored : Memory = poke (store c.auth.username 0 name) (length name) 0 in
    let c₂ = with_auth c₁ b₂ (record a₁ { username = stored; state = PamAuthState.pass }) in
    let (c₃, i, e₃, k₃, t) =
      block_pass_lem c₂ u password k₂ (omega (arith, room)) l₂ n₂ refl refl in
    let same : lookup_user (array_255 stored) (accounts u) ≡ lookup_user name (accounts u) =
      lookup_ext (array_255 stored) name (accounts u)
        (c_str-array c.auth.username name n₁ l₁ ∙ sym (c_str_of_NoNul name n₁)) in
    (c₃, i, auth_blocks c c₁ c₂ c₃ u (at_iter u i) 1 _ _ _ q₀ a₀ e₁ e₂ e₃, rw same at k₃, t)
