-- ===== src/Client/Args/Command.antt =====
-- The commands of src/client/client_args.c and of src/client/main.c: the two tell the same words
-- apart.
use socks5proxy.Prelude.{
  ℕ, ◌≡◌, refl, true, Option, some, List, [], arith, Bool-cases, inl, inr, ◌⊎◌, if◌then◌else◌,
}
use socks5proxy.CString.{c_str, strcmp, compare_bytes}
use socks5proxy.Users.{str_equal}
use socks5proxy.Users.Accounts.{str_equal-eq}
use socks5proxy.Users.Map.{str_equal_left}
use socks5proxy.Client.Words.{
  word_users, word_metrics, word_add_user, word_remove_user, word_change_password, word_change_role,
}
use socks5proxy.Client.Args.{need_args}

-- The choice of `run_command`.
abbrev pub choice : List ℕ → (a b c d e f : Option (List ℕ)) → Option (List ℕ)
choice opt a b c d e f =
    if str_equal opt word_users
    then a
    else if str_equal opt word_add_user
    then b
    else if str_equal opt word_remove_user
    then c
    else if str_equal opt word_change_password
    then d
    else if str_equal opt word_change_role
    then e
    else if str_equal opt word_metrics
    then f
    else some []

module _ (opt word : List ℕ) (t : str_equal opt word ≡ true) where
  pub same_test : (w : List ℕ) → str_equal opt w ≡ str_equal word w
  same_test w = str_equal_left opt word w (str_equal-eq opt word t)

  pub same_choice :
      (a b c d e f : Option (List ℕ)) → choice opt a b c d e f ≡ choice word a b c d e f
  same_choice a b c d e f =
      rw
        (
          same_test word_users,
          same_test word_add_user,
          same_test word_remove_user,
          same_test word_change_password,
          same_test word_change_role,
          same_test word_metrics,
        )
        refl

  pub same_need : need_args opt ≡ need_args word
  unfolding need_args
  same_need =
      rw
        (
          same_test word_users,
          same_test word_add_user,
          same_test word_remove_user,
          same_test word_change_password,
          same_test word_change_role,
          same_test word_metrics,
        )
        refl

module _ (a b c d e f : Option (List ℕ)) where
  pub chosen :
      (choice word_users a b c d e f ≡ a)
      × (choice word_add_user a b c d e f ≡ b)
      × (choice word_remove_user a b c d e f ≡ c)
      × (choice word_change_password a b c d e f ≡ d)
      × (choice word_change_role a b c d e f ≡ e)
      × (choice word_metrics a b c d e f ≡ f)
  unfolding str_equal strcmp compare_bytes c_str
  chosen = (refl, refl, refl, refl, refl, refl)

pub needed :
    (need_args word_add_user ≡ some 3)
    × (need_args word_remove_user ≡ some 1)
    × (need_args word_change_password ≡ some 2)
    × (need_args word_change_role ≡ some 2)
unfolding need_args str_equal strcmp compare_bytes c_str
needed = (refl, refl, refl, refl)

-- The words that `need_args` knows.
pub known_word :
    (opt : List ℕ) {n : ℕ}
    → need_args opt ≡ some n
    → (w : List ℕ) × (str_equal opt w ≡ true)
      × ((w ≡ word_users)
          ⊎ ((w ≡ word_metrics)
              ⊎ ((w ≡ word_remove_user)
                  ⊎ ((w ≡ word_change_role) ⊎ ((w ≡ word_change_password) ⊎ (w ≡ word_add_user))))))
unfolding need_args
known_word opt h = elim (Bool-cases (str_equal opt word_users)) [
  | inl t ↦ (word_users, t, inl refl)
  | inr f₁ ↦ elim (Bool-cases (str_equal opt word_metrics)) [
    | inl t ↦ (word_metrics, t, inr (inl refl))
    | inr f₂ ↦ elim (Bool-cases (str_equal opt word_remove_user)) [
      | inl t ↦ (word_remove_user, t, inr (inr (inl refl)))
      | inr f₃ ↦ elim (Bool-cases (str_equal opt word_change_role)) [
        | inl t ↦ (word_change_role, t, inr (inr (inr (inl refl))))
        | inr f₄ ↦ elim (Bool-cases (str_equal opt word_change_password)) [
          | inl t ↦ (word_change_password, t, inr (inr (inr (inr (inl refl)))))
          | inr f₅ ↦ elim (Bool-cases (str_equal opt word_add_user)) [
            | inl t ↦ (word_add_user, t, inr (inr (inr (inr (inr refl)))))
            | inr f₆ ↦ absurd (ground arith)
          ]
        ]
      ]
    ]
  ]
]
