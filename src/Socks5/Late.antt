-- ===== src/Socks5/Late.antt =====
-- The states behind the authentication, and the blocks of handlers that return none of them.
use socks5proxy.Prelude.{◌≡◌, subst, Bool, true, false, Option, some, arith}
use socks5proxy.Socks5.{SocksV5State}
use socks5proxy.Socks5.Flow.{Flow, returns, falls_through, next_block, finally}

unfoldable pub late : SocksV5State → Bool
late SocksV5State.request = true
late SocksV5State.connect = true
late SocksV5State.reply = true
late SocksV5State.copy = true
late _ = false

-- What a block does, if it is not to return a late state.
abbrev pub Early : Flow SocksV5State → Type 0
Early (returns s) = late s ≡ false
Early falls_through = Unit

pub next-Early :
    {C : Type 0} (block : C → Option (Flow SocksV5State × C))
    → ((c c' : C) (g : Flow SocksV5State) → block c ≡ some (g, c') → Early g)
    → (f g : Flow SocksV5State) (c c' : C) → Early f
    → next_block block (f, c) ≡ some (g, c')
    → Early g
next-Early block each (returns s) g c c' h e =
    let q : returns s ≡ g = ground arith in subst Early q h
next-Early block each falls_through g c c' h e = each c c' g e

pub finally-Early :
    {C : Type 0} (last : SocksV5State) (f : Flow SocksV5State) (c : C)
    → late last ≡ false
    → Early f
    → late (finally last (f, c)).0 ≡ false
finally-Early last (returns s) c l h = h
finally-Early last falls_through c l h = l
