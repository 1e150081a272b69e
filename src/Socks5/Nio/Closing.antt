-- ===== src/Socks5/Nio/Closing.antt =====
-- How src/server/socks5nio.c closes a connection, with the table of the selector.
use socks5proxy.Prelude.{
  ℕ, zero, suc, ◌-◌, ◌<◌, ◌≡◌, ◌≢◌, refl, ap, ◌∙◌, Bool, true, false, Option, none, some, List, [],
  ◌∷◌, ◌++◌, leb, if◌then◌else◌, set, ◌>>=◌, arith, gt→leb, append_assoc,
}
use socks5proxy.Metrics.{MetricSnapshot, register_connection_closed}
use socks5proxy.Selector.{items_max_size, Item, FdSelector}
use socks5proxy.Selector.Table.{item_of, remove_item}
use socks5proxy.Selector.Table.Slots.{item_at, item_at-lt, item_at-set}
use socks5proxy.Selector.Table.Invariant.{Tabled}
use socks5proxy.Selector.Table.Calls.{item_of_lem, remove_item-Tabled}

-- What closing reads and changes of `struct socks5` and the rest: `origin_fd` is `none` for -1, and
-- `closed_fds` lists the calls of close(2). `freed` says that `socks5_destroy` has released it.
pub record Ending (A : Type 0) : Type 0 where
  pub selector : FdSelector A
  pub metrics : MetricSnapshot
  pub client_fd : ℕ
  pub origin_fd : Option ℕ
  pub closed : Bool
  pub closed_fds : List ℕ
  pub freed : Bool

module _ {A : Type 0} where
  -- `socksv5_close`, given `socksv5_done`; the departure of a state only writes to the log.
  unfoldable pub socksv5_close : (Ending A → Option (Ending A)) → Ending A → Option (Ending A)
  socksv5_close done c = done (record c { metrics = register_connection_closed c.metrics })

  -- `selector_unregister_fd` for a descriptor of the connection, whose `handle_close` is
  -- `socksv5_close`, and the call of close(2) behind it.
  unfoldable pub unregister_and_close :
      (Ending A → Option (Ending A)) → ℕ → Ending A → Option (Ending A)
  unregister_and_close done fd c = do
    c₁ ←
        (if leb items_max_size fd then some c else (do
          slot ← item_of c.selector fd
          elim slot [
            | none ↦ some c
            | some item ↦ do
              c' ← socksv5_close done c
              slot' ← item_of c'.selector fd
              item' ← slot'
              (st, s) ← remove_item c'.selector fd item'
              some (record c' { selector = s })
          ]))
    some (record c₁ { closed_fds = c₁.closed_fds ++ fd ∷ [] })

  unfoldable pub close_origin :
      (Ending A → Option (Ending A)) → Option ℕ → Ending A → Option (Ending A)
  close_origin done none c = some c
  close_origin done (some fd) c = unregister_and_close done fd c

  -- The part of `socksv5_done` behind the test, with `socks5_destroy`.
  unfoldable pub close_both : (Ending A → Option (Ending A)) → Ending A → Option (Ending A)
  close_both done c = do
    c₁ ← close_origin done c.origin_fd (record c { closed = true })
    c₂ ← unregister_and_close done c.client_fd c₁
    some (record c₂ { freed = true })

  -- The calls that `socksv5_done` makes through the selector find `closed` set, so that two levels
  -- of fuel are enough.
  unfoldable pub socksv5_done : ℕ → Ending A → Option (Ending A)
  socksv5_done zero c = none
  socksv5_done (suc fuel) c = elim c.closed [
    | true ↦ some c
    | false ↦ close_both (λ d. socksv5_done fuel d) c
  ]

  -- A descriptor in use of a connection that is closed already.
  unregister_and_close_lem :
      (fuel fd : ℕ) (c : Ending A) (items : List (Option (Item A))) {x : Item A}
      → Tabled c.selector items
      → item_at items fd ≡ some x
      → fd < items_max_size
      → (s : FdSelector A) × (unregister_and_close
            (socksv5_done (suc fuel))
            fd
            (record c { closed = true })
          ≡ some (record c {
            closed = true;
            selector = s;
            metrics = register_connection_closed c.metrics;
            closed_fds = c.closed_fds ++ fd ∷ [];
          }))
        × Tabled s (set items fd none)
  unfolding unregister_and_close socksv5_close socksv5_done
  unregister_and_close_lem fuel fd c items {x} t u h =
      let (s, r, t') = remove_item-Tabled c.selector items fd x t u in
      let g : item_of c.selector fd ≡ some (some x) =
        item_of_lem c.selector items fd t (item_at-lt items fd u) ∙ ap some u in
      let l : leb items_max_size fd ≡ false = gt→leb items_max_size fd h in
      (s, rw (l, g) (rw (◌>>=◌, g, r) refl), t')

  close_both_lem :
      (done : Ending A → Option (Ending A)) (c c₁ c₂ : Ending A)
      → close_origin done c.origin_fd (record c { closed = true }) ≡ some c₁
      → unregister_and_close done c.client_fd c₁ ≡ some c₂
      → close_both done c ≡ some (record c₂ { freed = true })
  unfolding close_both
  close_both_lem done c c₁ c₂ e₁ e₂ = rw e₁ (rw (◌>>=◌, e₂) refl)

  -- An open connection whose two descriptors are in the table, when it is done: both leave the
  -- table, which keeps its invariant and every other item, both are closed, the origin's first, and
  -- the connection is released. It is counted twice as closed, once for each descriptor.
  pub socksv5_done_lem :
      (fuel o : ℕ) (c : Ending A) (items : List (Option (Item A))) {x y : Item A}
      → c.closed ≡ false
      → c.origin_fd ≡ some o
      → o ≢ c.client_fd
      → Tabled c.selector items
      → item_at items o ≡ some x
      → item_at items c.client_fd ≡ some y
      → o < items_max_size
      → c.client_fd < items_max_size
      → (c' : Ending A) × (socksv5_done (suc (suc fuel)) c ≡ some c')
        × Tabled c'.selector (set (set items o none) c.client_fd none)
        × (c'.closed_fds ≡ c.closed_fds ++ o ∷ c.client_fd ∷ [])
        × (c'.freed ≡ true)
        × (c'.metrics.current_connections ≡ c.metrics.current_connections - 2)
  unfolding socksv5_done close_both close_origin register_connection_closed
  socksv5_done_lem fuel o c items {x} {y} e k apart t u w h h' =
      let c₀ : Ending A = record c { closed = true } in
      let (s₁, r₁, t₁) = unregister_and_close_lem fuel o c₀ items t u h in
      let c₁ : Ending A = record c₀ {
        selector = s₁;
        metrics = register_connection_closed c.metrics;
        closed_fds = c.closed_fds ++ o ∷ [];
      } in
      let w' : item_at (set items o none) c.client_fd ≡ some y =
        ground (arith, item_at-set items o c.client_fd none (item_at-lt items o u), apart) in
      let (s₂, r₂, t₂) = unregister_and_close_lem fuel c.client_fd c₁ (set items o none) t₁ w' h' in
      (
        record c₁ {
          selector = s₂;
          metrics = register_connection_closed c₁.metrics;
          closed_fds = c₁.closed_fds ++ c.client_fd ∷ [];
          freed = true;
        },
        ap (λ b. elim b [ true ↦ some c | false ↦ close_both (socksv5_done (suc fuel)) c ]) e
            ∙ close_both_lem (socksv5_done (suc fuel)) c c₁ _
                (ap (λ z. close_origin (socksv5_done (suc fuel)) z c₀) k ∙ r₁) r₂,
        t₂,
        append_assoc c.closed_fds (o ∷ []) (c.client_fd ∷ []),
        refl,
        ground arith,
      )
