-- ===== src/Client/Login.antt =====
-- The client logs in: its first message, and how the server answers it.
use socks5proxy.Prelude.{ℕ, ◌+◌, ◌≤◌, ◌<◌, ◌≡◌, some, List, [], ◌∷◌, arith, le→ltb}
use socks5proxy.Buffer.View.{Holds}
use socks5proxy.CString.{c_str, strlen}
use socks5proxy.CString.Laws.{c_str-NoNul, c_str_of_NoNul}
use socks5proxy.Client.{ClientArgs}
use socks5proxy.Client.Messages.{auth_message}
use socks5proxy.Client.Messages.Framing.{copied_lem}
use socks5proxy.Selector.{op_write}
use socks5proxy.Socket.{Recv}
use socks5proxy.Users.{Users}
use socks5proxy.Users.Find.{accounts, at_iter}
use socks5proxy.Users.Accounts.{lookup_user}
use socks5proxy.Users.Map.{lookup_ext}
use socks5proxy.Pam.{pam_auth, PamAuthState, Pam, pam_version_1}
use socks5proxy.Pam.Auth.{pam_auth_read}
use socks5proxy.Pam.Auth.Accepts.{auth_answer, credentials, pam_auth_read_lem}

-- Up to 255 bytes each, the message is the credentials.
auth_message_lem :
    (args : ClientArgs) (user pass : List ℕ)
    → args.user ≡ some user
    → args.password ≡ some pass
    → strlen user ≤ 255
    → strlen pass ≤ 255
    → auth_message args
      ≡ some (some (credentials (strlen user) (c_str user) (strlen pass) (c_str pass)))
unfolding auth_message
auth_message_lem args user pass e₁ e₂ l₁ l₂ =
    let a = copied_lem user in
    let b = copied_lem pass in
    let f = le→ltb 255 (strlen user) l₁ in
    let g = le→ltb 255 (strlen pass) l₂ in ground (arith, e₁, e₂, a, b, f, g)

-- On a connection that waits for credentials, with an empty buffer and room, a name and a password
-- of 1 to 254 bytes on the client's command line are sent and are answered by the account of that
-- name: success if the password is its own, failure otherwise, and failure if there is none.
pub auth_message-pam_auth_read :
    (c : Pam) (u : Users) (args : ClientArgs) (user pass : List ℕ) {l : ℕ}
    → Holds c.client_buffer [] l
    → c.auth.state ≡ PamAuthState.ver_n_nuser_n_npass
    → args.user ≡ some user
    → args.password ≡ some pass
    → 0 < strlen user
    → 0 < strlen pass
    → strlen user < 255
    → strlen pass < 255
    → c.client_buffer.write + strlen user + strlen pass + 6 ≤ l
    → (m : List ℕ) × (c' : Pam) × (k : ℕ) × (auth_message args ≡ some (some m))
      × (pam_auth_read c u (Recv.received m) ≡ some (pam_auth, c', at_iter u k))
      × Holds c'.client_buffer
          (pam_version_1 ∷ auth_answer (lookup_user user (accounts u)) (c_str pass) ∷ [])
          l
      × (c'.client_interest ≡ op_write)
unfolding strlen
auth_message-pam_auth_read c u args user pass {l} h st e₁ e₂ p₁ p₂ l₁ l₂ room =
    let n₁ = c_str-NoNul user in
    let n₂ = c_str-NoNul pass in
    let (c', k, e, v, i) =
      pam_auth_read_lem c u (c_str user) (c_str pass) h st n₁ n₂ p₁ p₂ l₁ l₂ room in
    let same : lookup_user (c_str user) (accounts u) ≡ lookup_user user (accounts u) =
      lookup_ext (c_str user) user (accounts u) (c_str_of_NoNul (c_str user) n₁) in
    (
      credentials (strlen user) (c_str user) (strlen pass) (c_str pass),
      c',
      k,
      auth_message_lem args user pass e₁ e₂ (omega (arith, l₁)) (omega (arith, l₂)),
      e,
      rw same at v,
      i,
    )
