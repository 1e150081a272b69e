-- ===== src/Client/Args/Laws.antt =====
-- A command line that is accepted has every argument that its command reads, and asks for it.
use socks5proxy.Prelude.{ℕ, ◌≤◌, ◌≡◌, true, Option, some, List, [], ◌∷◌, length, ◌++◌, ◌%◌}
use socks5proxy.Users.{str_equal}
use socks5proxy.Client.{ClientArgs}
use socks5proxy.Client.Words.{
  word_users, word_metrics, word_add_user, word_remove_user, word_change_password, word_change_role,
}
use socks5proxy.Client.Messages.Framing.{request_of}
use socks5proxy.Client.Messages.Sends.{field}
use socks5proxy.Client.Args.{need_args, assign_args}

-- What a line that is accepted consists of.
record Accepted (args : ClientArgs) : Type 0 where
  command : List ℕ
  count : ℕ
  given : List (List ℕ)
  before : ClientArgs
  known : need_args command ≡ some count
  enough : count ≤ length given
  named : before.option ≡ some command
  result : args ≡ assign_args count given before

-- The command of the line, as strcmp tells it.
abbrev pub Named : ClientArgs → List ℕ → Type 0
Named args w = (c : List ℕ) × (args.option ≡ some c) × (str_equal c w ≡ true)

-- Which request this is: of the method of the command, with its arguments in their order.
pub data Requested (atoi : List ℕ → ℕ) (args : ClientArgs) (sent : Option (List ℕ)) : Type 0 where
  users : Named args word_users → sent ≡ some (request_of 1 []) → Requested atoi args sent
  metrics : Named args word_metrics → sent ≡ some (request_of 6 []) → Requested atoi args sent
  removes :
      (x : List ℕ)
      → Named args word_remove_user
      → args.arg1 ≡ some x
      → sent ≡ some (request_of 3 (field x))
      → Requested atoi args sent
  changes_role :
      (x y : List ℕ)
      → Named args word_change_role
      → args.arg1 ≡ some x
      → args.arg2 ≡ some y
      → sent ≡ some (request_of 5 (field x ++ atoi y % 256 ∷ []))
      → Requested atoi args sent
  changes_password :
      (x y : List ℕ)
      → Named args word_change_password
      → args.arg1 ≡ some x
      → args.arg2 ≡ some y
      → sent ≡ some (request_of 4 (field x ++ field y))
      → Requested atoi args sent
  adds :
      (x y z : List ℕ)
      → Named args word_add_user
      → args.arg1 ≡ some x
      → args.arg2 ≡ some y
      → args.arg3 ≡ some z
      → sent ≡ some (request_of 2 (field x ++ field y ++ atoi z % 256 ∷ []))
      → Requested atoi args sent
