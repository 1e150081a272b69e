-- ===== src/Socks5/Flow.antt =====
-- A handler is a row of blocks, each of which returns a state or falls through to the next.
use socks5proxy.Prelude.{Option, some, ◌≡◌, refl, sym, ap}

pub data Flow (S : Type 0) : Type 0 where
  returns : S → Flow S
  falls_through : Flow S

-- Go on with the next block, unless this one returned.
abbrev pub next_block :
    {S C : Type 0} → (C → Option (Flow S × C)) → Flow S × C → Option (Flow S × C)
next_block k (returns s, c) = some (returns s, c)
next_block k (falls_through, c) = k c

-- The function's last `return`.
abbrev pub finally : {S C : Type 0} → S → Flow S × C → S × C
finally last (returns s, c) = (s, c)
finally last (falls_through, c) = (last, c)

-- The state that is returned, and what is carried along.
pub finally_split :
    {S C D : Type 0} (last : S) (f : Flow S × C) (d : D)
    → (finally last (f.0, d) ≡ ((finally last f).0, d)) × ((finally last f).1 ≡ f.1)
finally_split last (returns s, c) d = (refl, refl)
finally_split last (falls_through, c) d = (refl, refl)

pub finally_carries :
    {S C : Type 0} (last : S) (f : Flow S) (c : C) {st : S} {c' : C}
    → finally last (f, c) ≡ (st, c')
    → c' ≡ c
finally_carries last (returns s) c e = sym (ap (λ p. p.1) e)
finally_carries last falls_through c e = sym (ap (λ p. p.1) e)
