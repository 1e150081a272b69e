-- ===== src/Parser/Tests.antt =====
-- The parser of src/shared/parser_utils.c at a concrete string.
use socks5proxy.Prelude.{◌≡◌, refl, true, some, [], ◌∷◌, arith, min, ◌==◌, if◌then◌else◌}
use socks5proxy.Buffer.{Ssize, pos, neg}
use socks5proxy.Parser.{Parser, parser_init}
use socks5proxy.Parser.Utils.{parser_utils_strcmpi}
use socks5proxy.Parser.Compare.{GivesByte, feed_all, verdict, parser_utils_strcmpi_lem}

-- The case of the letter a only.
abbrev lower : Ssize → Ssize
lower (pos x) = pos (if x == 65 then 97 else min x 255)
lower (neg n) = neg n

abbrev upper : Ssize → Ssize
upper (pos x) = pos (if x == 97 then 65 else min x 255)
upper (neg n) = neg n

lower-GivesByte : GivesByte lower
lower-GivesByte x h = (_, refl, ground arith)

upper-GivesByte : GivesByte upper
upper-GivesByte x h = (_, refl, ground arith)

parser_utils_strcmpi_lem_example :
    (p p' : Parser) × (parser_init
        (λ _. 0)
        (parser_utils_strcmpi lower upper (97 ∷ 46 ∷ []) true)
        true
      ≡ some p)
    × (feed_all p (65 ∷ 46 ∷ []) ≡ some p')
    × (p'.e1.type ≡ verdict lower upper (97 ∷ 46 ∷ []) (65 ∷ 46 ∷ []))
parser_utils_strcmpi_lem_example =
    parser_utils_strcmpi_lem lower upper lower-GivesByte upper-GivesByte (λ _. 0) 97 (46 ∷ [])
      (65 ∷ 46 ∷ []) (omega arith, (omega arith, tt))
