-- ===== src/Client/Messages/Served.antt =====
-- What the server does with the messages of the client.
use socks5proxy.Prelude.{
  ℕ, ◌+◌, ◌*◌, ◌/◌, ◌%◌, ◌^◌, ◌≤◌, ◌<◌, ◌≡◌, ap, ◌∙◌, true, none, some, List, [], ◌∷◌, ◌++◌, arith,
  length, length-append, append_assoc,
}
use socks5proxy.Buffer.{Buffer}
use socks5proxy.Buffer.View.{Holds}
use socks5proxy.CString.{c_str, strlen}
use socks5proxy.CString.Laws.{c_str-NoNul, c_str_of_NoNul}
use socks5proxy.Client.{protocol_version, method_add_user, ClientArgs}
use socks5proxy.Client.Messages.{send_request, add_user}
use socks5proxy.Client.Messages.Framing.{request_of, send_request_lem, counted_lem}
use socks5proxy.Socket.{Recv}
use socks5proxy.Users.{
  Users, user_ok, user_authenticate, users_max_username_length, users_max_password_length,
}
use socks5proxy.Users.Find.{accounts, at_iter}
use socks5proxy.Users.Accounts.{lookup_user}
use socks5proxy.Users.Map.{lookup_ext}
use socks5proxy.Users.Laws.{IsValid}
use socks5proxy.Pam.{pam_request, PamRequestState, Pam, pam_buffer_size, pam_version_1}
use socks5proxy.Pam.Bytes.{Held}
use socks5proxy.Pam.Dispatch.{Inputs, handle_pam_request_method}
use socks5proxy.Pam.Methods.{pam_request_success, with_status, handle_add_user}
use socks5proxy.Pam.Methods.Authorisation.{is_authorised}
use socks5proxy.Pam.Methods.Administrator.{handle_add_user_lem}
use socks5proxy.Pam.Request.{reply, pam_request_read}
use socks5proxy.Pam.Request.Laws.{served, pam_request_read_lem}
use socks5proxy.Pam.Request.Reply.{reply_lem}

-- The connection waits for a request, with an empty buffer of `l` bytes that has room for a body of
-- `n` bytes twice.
pub record Ready (c : Pam) (l n : ℕ) : Type 0 where
  pub empty : Holds c.client_buffer [] l
  pub waits : c.request.state ≡ PamRequestState.ver_n_reserved
  pub agreed : c.request.reserved ≡ 0
  pub room : c.client_buffer.write + 6 + n + n + 2 ≤ l
  pub small : l ≤ pam_buffer_size

-- What `send_request` sends for a method and a body, `pam_request_read` takes apart into the same
-- method and the same body, on a connection that is ready for it.
pub send_request-pam_request_read :
    (env : Inputs) (c : Pam) (u : Users) (method : ℕ) (body : List ℕ) {l : ℕ}
    → Ready c l (length body)
    → method < 65536
    → (m : List ℕ) × (c' : Pam) × (local : Buffer) × (send_request protocol_version method
          (length body % 2 ^ 16)
          (some body)
        ≡ some m)
      × (pam_request_read env c u (Recv.received m) ≡ served env c' u local)
      × (c'.request.method ≡ method)
      × Holds local body pam_buffer_size
      × Holds c'.client_buffer [] l
      × (c'.auth ≡ c.auth)
      × (c'.request.write_nbody ≡ c.request.write_nbody)
send_request-pam_request_read env c u method body {l} r h =
    let n : length body < 65536 = omega (arith, r.room, r.small) in
    let whole : length body ≡ length body / 256 * 256 + length body % 256 = omega arith in
    let (c', local, e, m, v, k, a, w) =
      pam_request_read_lem env c u (method / 256) (method % 256) (length body / 256)
        (length body % 256) body r.empty r.waits r.agreed whole r.room r.small in
    let same : method / 256 * 256 + method % 256 ≡ method = omega arith in
    (request_of method body, c', local, send_request_lem method body h n, e, m ∙ same, v, k, a, w)

-- The body of `add_user`.
abbrev pub add_body : List ℕ → List ℕ → ℕ → List ℕ
add_body name password role = length name ∷ name ++ (length password ∷ password ++ role ∷ [])

length-add_body :
    (name password : List ℕ) (role : ℕ)
    → length (add_body name password role) ≡ length name + length password + 3
length-add_body name password role = omega (
  arith,
  length-append (length name ∷ name) (length password ∷ password ++ role ∷ []),
  length-append (length password ∷ password) (role ∷ []),
)

add_user_lem :
    (atoi : List ℕ → ℕ) (args : ClientArgs) (name password role : List ℕ)
    → args.arg1 ≡ some name
    → args.arg2 ≡ some password
    → args.arg3 ≡ some role
    → strlen name < 255
    → strlen password < 255
    → add_user atoi args
      ≡ send_request protocol_version method_add_user
          (length (add_body (c_str name) (c_str password) (atoi role % 256)) % 2 ^ 16)
          (some (add_body (c_str name) (c_str password) (atoi role % 256)))
unfolding add_user
add_user_lem atoi args name password role e₁ e₂ e₃ l₁ l₂ =
    let n = counted_lem name (omega (arith, l₁)) in
    let p = counted_lem password (omega (arith, l₂)) in
    let assoc =
      append_assoc (length (c_str name) ∷ c_str name) (length (c_str password) ∷ c_str password)
        (atoi role % 256 ∷ []) in
    ground (arith, e₁, e₂, e₃, n, p, assoc)

served_lem :
    (env : Inputs) (c c₁ c₂ : Pam) (u u₁ : Users) (local : Buffer)
    → handle_pam_request_method env c u local ≡ some (c₁, u₁)
    → reply (c₁, u₁) ≡ some (c₂, u₁)
    → served env c u local ≡ some (pam_request, c₂, u₁)
served_lem env c c₁ c₂ u u₁ local e f = ground (arith, e, f)

handle_add :
    (env : Inputs) (c : Pam) (u : Users) (b : Buffer)
    → c.request.method ≡ method_add_user
    → env.alloc ≡ true
    → handle_pam_request_method env c u b ≡ handle_add_user env.local true env.garbage c u b
unfolding handle_pam_request_method
handle_add env c u b e a =
    let chosen : handle_pam_request_method env c u b
        ≡ handle_add_user env.local env.alloc env.garbage c u b =
      ground (arith, e) in
    chosen ∙ ap (λ t. handle_add_user env.local t env.garbage c u b) a

-- The new `User` is large enough, and `list_add` gets its memory.
pub record Supplied (env : Inputs) : Type 0 where
  pub memory : env.alloc ≡ true
  pub names : users_max_username_length ≤ length env.local.username
  pub passwords : users_max_password_length ≤ length env.local.password

-- When an administrator's client runs `add_user` with a free name, and a name and a password below
-- 255 bytes, on a connection that is ready, the server creates the account, so that it opens with
-- its password, and answers with the version and PAM_REQUEST_SUCCESS first.
pub add_user-authenticate :
    (env : Inputs) (c : Pam) (u : Users) (atoi : List ℕ → ℕ) (args : ClientArgs)
    (name password role : List ℕ) {l : ℕ}
    → Supplied env
    → Ready c l (strlen name + strlen password + 3)
    → c.request.write_nbody + 4 ≤ l
    → is_authorised c u ≡ true
    → IsValid u
    → args.arg1 ≡ some name
    → args.arg2 ≡ some password
    → args.arg3 ≡ some role
    → strlen name < users_max_username_length
    → strlen password < users_max_password_length
    → lookup_user name (accounts u) ≡ none
    → (m : List ℕ) × (c' : Pam) × (u' : Users) × (k : ℕ) × (rest : List ℕ) × (add_user atoi args
        ≡ some m)
      × (pam_request_read env c u (Recv.received m) ≡ some (pam_request, c', u'))
      × IsValid u'
      × (user_authenticate u' (c_str name) (c_str password) ≡ some (user_ok, at_iter u' k))
      × Holds c'.client_buffer (pam_version_1 ∷ pam_request_success ∷ rest) l
unfolding strlen
add_user-authenticate env c u atoi args name password role {l} given ready fits auth v e₁ e₂ e₃ l₁
      l₂ free =
    let body = add_body (c_str name) (c_str password) (atoi role % 256) in
    let size = length-add_body (c_str name) (c_str password) (atoi role % 256) in
    let ready' : Ready c l (length body) = rw size ready in
    let (m, c₁, local, em, er, meth, h, k, a, w) =
      send_request-pam_request_read env c u method_add_user body ready' (omega arith) in
    let held : Held local body pam_buffer_size local.write = record {
      holds = h;
      below = omega arith;
    } in
    let n₁ = c_str-NoNul name in
    let n₂ = c_str-NoNul password in
    let auth₁ : is_authorised c₁ u ≡ true = rw a auth in
    let free₁ : lookup_user (c_str name) (accounts u) ≡ none =
      lookup_ext (c_str name) name (accounts u) (c_str_of_NoNul (c_str name) n₁) ∙ free in
    let (u', i, eh, v', opens) =
      handle_add_user_lem env.local env.garbage c₁ u (c_str name) (c_str password) (atoi role % 256)
        local held auth₁ v n₁ n₂ free₁ l₁ l₂ given.names given.passwords in
    let (c₂, ep, kp, ki, ka) =
      reply_lem (with_status c₁ pam_request_success) u' (k.same_limit) (omega (arith, w, fits)) in
    let eh' : handle_pam_request_method env c₁ u local
        ≡ some (with_status c₁ pam_request_success, u') =
      handle_add env c₁ u local meth given.memory ∙ eh in
    (
      m,
      c₂,
      u',
      i,
      _,
      add_user_lem atoi args name password role e₁ e₂ e₃ l₁ l₂ ∙ em,
      er ∙ served_lem env c₁ (with_status c₁ pam_request_success) c₂ u u' local eh' ep,
      v',
      opens,
      kp,
    )
