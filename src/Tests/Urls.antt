-- ===== src/Tests/Urls.antt =====
-- Texts that are encoded and decoded for URLs.
use libwebsocket_component.Prelude.{
  ◌≡◌, ◌≢◌, arith, [], ◌∷◌, ◌++◌, codes, done, aborted, unfinished, refl,
}
use libwebsocket_component.Https.Urls.{
  url_encode_loop, url_encode, multiple_encode, multiple_decode, decode_pass, multiple_loop,
  pass_loop, decode_round, escape, escape_twice, str_to_bin,
}
use libwebsocket_component.Https.Urls.RoundTrip.{multiple_decode-multiple_encode}
use libwebsocket_component.Https.Urls.Passes.{multiple_decode-ne-unfinished, multiple_decode_aborts}

encoded_blank : url_encode (codes "a b-c") ≡ done (codes "a+b-c")
unfolding url_encode url_encode_loop
encoded_blank = refl

multiple_decode-multiple_encode_example :
    multiple_decode (multiple_encode (codes "a b/c+")) ≡ done (codes "a b/c+")
multiple_decode-multiple_encode_example =
    multiple_decode-multiple_encode (codes "a b/c+") (ground arith)

multiple_decode-ne-unfinished_example : multiple_decode (codes "%25252541") ≢ unfinished
multiple_decode-ne-unfinished_example = multiple_decode-ne-unfinished (codes "%25252541")

multiple_decode_aborts_example : multiple_decode (codes "ab" ++ (b'%' ∷ [])) ≡ aborted
multiple_decode_aborts_example = multiple_decode_aborts (codes "ab") (ground arith)

-- Encoded three times over, in one call.
decoded_thrice : multiple_decode (codes "%25252541") ≡ done (codes "A")
unfolding multiple_decode multiple_loop decode_pass pass_loop decode_round escape escape_twice
    str_to_bin
decoded_thrice = refl
