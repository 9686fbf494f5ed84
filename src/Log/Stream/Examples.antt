-- ===== src/Log/Stream/Examples.antt =====
-- Two numbers.
use mini_reactor.Base.{◌≡◌, refl, some, arith}
use mini_reactor.Base.Bytes.{codes, plus, minus, stoi}
use mini_reactor.Log.Stream.{text_of}
use mini_reactor.Log.Stream.Digits.{stoi-text_of}

written : (text_of (plus 4070) ≡ codes "4070") × (text_of (minus 12) ≡ codes "-12")
unfolding text_of
written = (refl, refl)

stoi-text_of_example :
    (stoi (text_of (plus 4070)) ≡ some (plus 4070)) × (stoi (text_of (minus 12)) ≡ some (minus 12))
stoi-text_of_example = stoi-text_of 4070 11 (omega arith) (omega arith)
