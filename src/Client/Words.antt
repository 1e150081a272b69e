-- ===== src/Client/Words.antt =====
-- The words of the command line of src/client/client_args.c, and the default host.
use socks5proxy.Prelude.{ℕ, List, [], ◌∷◌}

-- "-h"
abbrev pub flag_h : List ℕ
flag_h = b'-' ∷ b'h' ∷ []

-- "-v"
abbrev pub flag_v : List ℕ
flag_v = b'-' ∷ b'v' ∷ []

-- "-L"
abbrev pub flag_l : List ℕ
flag_l = b'-' ∷ b'L' ∷ []

-- "-P"
abbrev pub flag_p : List ℕ
flag_p = b'-' ∷ b'P' ∷ []

-- "-u"
abbrev pub flag_u : List ℕ
flag_u = b'-' ∷ b'u' ∷ []

-- "users"
abbrev pub word_users : List ℕ
word_users = b'u' ∷ b's' ∷ b'e' ∷ b'r' ∷ b's' ∷ []

-- "metrics"
abbrev pub word_metrics : List ℕ
word_metrics = b'm' ∷ b'e' ∷ b't' ∷ b'r' ∷ b'i' ∷ b'c' ∷ b's' ∷ []

-- "add-user"
abbrev pub word_add_user : List ℕ
word_add_user = b'a' ∷ b'd' ∷ b'd' ∷ b'-' ∷ b'u' ∷ b's' ∷ b'e' ∷ b'r' ∷ []

-- "remove-user"
abbrev pub word_remove_user : List ℕ
word_remove_user = b'r' ∷ b'e' ∷ b'm' ∷ b'o' ∷ b'v' ∷ b'e' ∷ b'-' ∷ b'u' ∷ b's' ∷ b'e' ∷ b'r' ∷ []

-- "change-password"
abbrev pub word_change_password : List ℕ
word_change_password =
    b'c' ∷ b'h' ∷ b'a' ∷ b'n' ∷ b'g' ∷ b'e' ∷ b'-' ∷ b'p' ∷ b'a' ∷ b's' ∷ b's' ∷ b'w' ∷ b'o' ∷ b'r'
    ∷ b'd' ∷ []

-- "change-role"
abbrev pub word_change_role : List ℕ
word_change_role = b'c' ∷ b'h' ∷ b'a' ∷ b'n' ∷ b'g' ∷ b'e' ∷ b'-' ∷ b'r' ∷ b'o' ∷ b'l' ∷ b'e' ∷ []

-- "127.0.0.1"
abbrev pub local_host : List ℕ
local_host = b'1' ∷ b'2' ∷ b'7' ∷ b'.' ∷ b'0' ∷ b'.' ∷ b'0' ∷ b'.' ∷ b'1' ∷ []
