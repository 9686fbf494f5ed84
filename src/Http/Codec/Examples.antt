-- ===== src/Http/Codec/Examples.antt =====
-- The parser and the codec at concrete requests.
use mini_reactor.Base.{length, ◌≡◌, refl, true, List, [], ◌∷◌, ◌++◌, some, ℕ, arith, inl, inr}
use mini_reactor.Base.Bytes.{codes, stoi, lookup, skip_space, to_lower}
use mini_reactor.Net.Buffer.{Buffer, append, contents, search_crlf}
use mini_reactor.Net.Buffer
use mini_reactor.Net.Buffer.Contents.{init-IsValid, append-IsValid}
use mini_reactor.Http.Context.{
  HttpRequest, HttpContext, init, empty_request, after_headers, expect_body_len, parse_request,
  spins, parse_loop,
}
use mini_reactor.Http.Context.Scan.Refine.{Returns, parse_request-Returns}
use mini_reactor.Http.Context.Encode.{HasLines, IsEncodable, encode}
use mini_reactor.Http.Codec.{callback, send_bad_request, shutdown, served, on_message}
use mini_reactor.Http.Codec.Delivery.{SameService, deliver-SameService}
use mini_reactor.Http.Codec.Pipeline.{encode_all, on_message-encode_all, bad_length_spins}

abbrev small : Buffer
small = record { buffer = 0 ∷ 0 ∷ 0 ∷ 0 ∷ []; read_index = 0; write_index = 0 }

abbrev half_line : List ℕ
half_line = codes "GET /a"

abbrev other_half : List ℕ
other_half = codes " HTTP/1.1" ++ 13 ∷ 10 ∷ 13 ∷ 10 ∷ []

abbrev posted : HttpRequest
posted = record {
  method = codes "POST";
  path = codes "/c";
  query = codes "q=1";
  version = codes "HTTP/1.1";
  headers = (codes "content-length", codes "2") ∷ [];
  body = codes "hi";
}

abbrev fetched : HttpRequest
fetched = record empty_request {
  method = codes "GET";
  path = codes "/";
  version = codes "HTTP/1.1";
}

abbrev broken : HttpRequest
broken = record posted { headers = (codes "content-length", codes "x") ∷ [] }

posted-IsEncodable : IsEncodable posted
unfolding after_headers expect_body_len lookup stoi search_crlf to_lower skip_space
posted-IsEncodable = record {
  lines = record {
    method = omega arith;
    target = omega arith;
    path = omega arith;
    line = refl;
    headers = (omega arith, refl, refl, refl, refl, tt);
  };
  framed = inr (refl, refl);
}

fetched-IsEncodable : IsEncodable fetched
unfolding after_headers expect_body_len lookup stoi search_crlf to_lower skip_space
fetched-IsEncodable = record {
  lines = record {
    method = omega arith;
    target = omega arith;
    path = omega arith;
    line = refl;
    headers = tt;
  };
  framed = inl (refl, refl);
}

broken-HasLines : HasLines broken
unfolding lookup search_crlf to_lower skip_space
broken-HasLines = record {
  method = omega arith;
  target = omega arith;
  path = omega arith;
  line = refl;
  headers = (omega arith, refl, refl, refl, refl, tt);
}

abbrev holding : List ℕ → Buffer
holding bytes = append bytes (Buffer.init 4)

parse_request-Returns_example :
    Returns init (holding half_line) (parse_request init (holding half_line))
parse_request-Returns_example =
    parse_request-Returns init (holding half_line) (append-IsValid half_line (init-IsValid 4)) tt

deliver-SameService_example :
    SameService true half_line other_half init small [] init (append half_line small)
unfolding on_message append search_crlf
deliver-SameService_example =
    deliver-SameService true half_line other_half init small [] init (append half_line small)
      (omega arith) tt refl tt

abbrev full : List ℕ → Buffer
full bytes = record { buffer = bytes; read_index = 0; write_index = length bytes }

on_message-encode_all_example :
    (rest : Buffer) × (on_message true (some init) (full (encode_all (posted ∷ fetched ∷ [])))
      ≡ served (callback posted ∷ callback fetched ∷ []) init rest)
    × (contents rest ≡ [])
unfolding encode
on_message-encode_all_example =
    on_message-encode_all (posted ∷ fetched ∷ []) (full (encode_all (posted ∷ fetched ∷ [])))
      (posted-IsEncodable, (fetched-IsEncodable, tt)) (omega arith) refl

bad_length_spins_example :
    (ctx : HttpContext) × (left : Buffer) × (on_message true (some init) (full (encode broken []))
      ≡ served (send_bad_request ∷ shutdown ∷ []) ctx left)
    × ((fuel : ℕ) (later : Buffer) → parse_loop fuel ctx later ≡ spins)
unfolding encode after_headers lookup stoi
bad_length_spins_example =
    bad_length_spins broken [] (full (encode broken [])) broken-HasLines refl (omega arith) refl
