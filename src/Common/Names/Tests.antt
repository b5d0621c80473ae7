-- ===== src/Common/Names/Tests.antt =====
-- Names as the program's examples spell them.
use myrpc.Base.{codes, ◌≡◌, refl, ◌∷◌}
use myrpc.Common.Names.{snake_string, camel_string}
use myrpc.Common.Names.Snake.{camel_string-snake_string}

snake_test : snake_string (codes "XxYy") ≡ codes "xx_yy"
unfolding snake_string
snake_test = refl

camel_test : camel_string (codes "xx_yy") ≡ codes "XxYy"
unfolding camel_string
camel_test = refl

camel_string-snake_string_example :
    camel_string (snake_string (b'X' ∷ codes "xYy")) ≡ b'X' ∷ codes "xYy"
camel_string-snake_string_example =
    camel_string-snake_string b'X' (codes "xYy") refl ((λ e. cc), ((λ e. cc), ((λ e. cc), tt)))
