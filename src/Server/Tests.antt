-- ===== src/Server/Tests.antt =====
-- The theorems on the command line and the log of the server at concrete inputs.
use socks5proxy.Prelude.{
  ℕ, ◌+◌, ◌*◌, ◌-◌, ◌≤◌, ◌≡◌, refl, true, false, some, List, [], ◌∷◌, ◌++◌, length, map, take,
  replicate, inr, arith,
}
use socks5proxy.Buffer.{pos}
use socks5proxy.CString.{c_str, strlen, strcmp, compare_bytes}
use socks5proxy.Queue.Window
use socks5proxy.Selector.{op_noop}
use socks5proxy.Users.{User, Users, user_cmp, str_equal, user_total_admins}
use socks5proxy.Users.Find.{accounts}
use socks5proxy.Users.Accounts.{lookup_user}
use socks5proxy.Users.Laws.{IsValid}
use socks5proxy.Server.Args.{
  ok, Long, Credentials, Socks5Args, Found, port, strchr, user, handle_option, parse_options,
  parse_args, defaults,
}
use socks5proxy.Server.Args.Laws.{All, option_of}
use socks5proxy.Server.Accounts.{create_users, Apart, Free, Short, Opens, parse_args-create_users}
use socks5proxy.Server.Logger.{Logger, max_log_size, format_log_message, write_logs_deferred}
use socks5proxy.Server.Logger.Lines.{shortened, format_log_message_lem}
use socks5proxy.Server.Logger.Written.{drain, concat, write_logs_deferred_lem, drain_lem}

-- The value of decimal digits, as `strtol` reads them.
abbrev digits : ℕ → List ℕ → ℕ
digits n [] = n
digits n (d ∷ ds) = digits (10 * n + (d - b'0')) ds

abbrev decimal : List ℕ → Long
decimal s = record { value = pos (digits 0 s); consumed = length s; out_of_range = false }

-- `-p 90 -u c:d`
abbrev line : List Found
line =
    record { c = b'p'; optarg = b'9' ∷ b'0' ∷ [] }
    ∷ record { c = b'u'; optarg = b'c' ∷ b':' ∷ b'd' ∷ [] }
    ∷ []

abbrev line_args : Socks5Args
line_args = record defaults {
  socks_port = 90;
  users = record { name = b'c' ∷ []; pass = b'd' ∷ [] } ∷ [];
}

line-parsed : parse_args decimal line false ≡ ok line_args
unfolding parse_args parse_options handle_option port user strchr defaults
line-parsed = refl

-- The accounts begin with "a", whose password is "b".
abbrev one_user : Users
one_user = record {
  users_list = record {
    head = record { username = 97 ∷ 0 ∷ []; password = 98 ∷ 0 ∷ []; privilege_level = 0 } ∷ [];
    iter = 0;
    size = 1;
    cmp = user_cmp;
  };
  total_admins = 1;
}

one_user-IsValid : IsValid one_user
one_user-IsValid = record {
  by_name = refl;
  sorted = record { ascending = (tt, tt); counted = refl };
}

abbrev c_and_d : List Credentials
c_and_d =
    record { name = b'c' ∷ []; pass = b'x' ∷ [] }
    ∷ record { name = b'd' ∷ []; pass = b'y' ∷ b':' ∷ [] }
    ∷ []

abbrev unwritten : List ℕ → User
unwritten name = record {
  username = replicate 256 7;
  password = replicate 256 7;
  privilege_level = 7;
}

c_and_d-Free : Free (accounts one_user) c_and_d
unfolding lookup_user str_equal strcmp compare_bytes c_str
c_and_d-Free = (refl, (refl, tt), (refl, tt, tt))

c_and_d-Short : All Short c_and_d
unfolding strlen c_str
c_and_d-Short = omega arith

parse_args-create_users_example :
    (args : Socks5Args) × (u' : Users) × (parse_args decimal (map option_of c_and_d) false
      ≡ ok args)
    × (create_users one_user unwritten args.users ≡ some (true, u'))
    × IsValid u'
    × All (Opens u') c_and_d
    × (user_total_admins u' ≡ user_total_admins one_user)
    × ((j : List ℕ)
        → Apart j c_and_d
        → lookup_user j (accounts u') ≡ lookup_user j (accounts one_user))
parse_args-create_users_example =
    parse_args-create_users decimal one_user unwritten c_and_d (omega arith)
      ((refl, tt), ((refl, tt), tt)) (λ name. omega arith) one_user-IsValid c_and_d-Free
      c_and_d-Short

-- Two lines wait.
abbrev waiting : Logger
waiting = record {
  log_queue = record {
    nodes = (1 ∷ 2 ∷ 10 ∷ []) ∷ (3 ∷ 10 ∷ []) ∷ [];
    max_capacity = 100;
    size = 2;
  };
  log_buffer = record { mem = λ i. 0; limit = 0; read = 0; write = 0 };
  log_always_incremental_id = 2;
  interest = some 4;
  file = 9 ∷ 10 ∷ [];
}

waiting-IsValid : Window.IsValid waiting.log_queue
waiting-IsValid = record { counted = refl; bounded = inr (omega arith) }

write_logs_deferred_lem_example :
    (l' : Logger) × (write_logs_deferred waiting (pos 2) ≡ some l')
    × (l'.file ≡ (9 ∷ 10 ∷ []) ++ take 2 (1 ∷ 2 ∷ 10 ∷ []))
    × (l'.log_queue.nodes ≡ (3 ∷ 10 ∷ []) ∷ [])
    × Window.IsValid l'.log_queue
    × (l'.interest ≡ some 4)
write_logs_deferred_lem_example =
    write_logs_deferred_lem waiting (1 ∷ 2 ∷ 10 ∷ []) ((3 ∷ 10 ∷ []) ∷ []) 2 waiting-IsValid refl
      (omega arith) (omega arith)

drain_lem_example :
    (l' : Logger) × (drain 2 waiting ≡ some l')
    × (l'.file ≡ (9 ∷ 10 ∷ []) ++ concat ((1 ∷ 2 ∷ 10 ∷ []) ∷ (3 ∷ 10 ∷ []) ∷ []))
    × (l'.log_queue.nodes ≡ [])
    × (l'.interest ≡ some op_noop)
drain_lem_example =
    drain_lem waiting ((1 ∷ 2 ∷ 10 ∷ []) ∷ (3 ∷ 10 ∷ []) ∷ []) waiting-IsValid refl (omega arith)
      refl

format_log_message_lem_example :
    (format_log_message (b'[' ∷ b']' ∷ []) (b'x' ∷ [])
      ≡ some (shortened ((b'[' ∷ b']' ∷ []) ++ ((b'x' ∷ []) ++ b'\n' ∷ []))))
    × (length (shortened ((b'[' ∷ b']' ∷ []) ++ ((b'x' ∷ []) ++ b'\n' ∷ []))) ≤ max_log_size - 1)
format_log_message_lem_example = format_log_message_lem (b'[' ∷ b']' ∷ []) (b'x' ∷ []) (omega arith)
