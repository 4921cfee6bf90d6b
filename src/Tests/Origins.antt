-- ===== src/Tests/Origins.antt =====
-- Examples on the rewriting of origins.
use hapudding.Base.{
  false, ◌≡◌, refl, [], ◌∷◌, true, ◌&&◌, not, Option, none, some, ◌==◌, if◌then◌else◌, All, map, ℕ,
}
use hapudding.Base.Int.{pos}
use hapudding.Text.{Bytes, codes, is_empty, split, equal_fold, to_lower, lower_byte, str_eq}
use hapudding.Config.{Config}
use hapudding.Proxy.Headers.{values}
use hapudding.Proxy.Origin.Urls.{Urls, Incoming, rewrite_location_headers}
use hapudding.Proxy.Origin.Playlist.{rewrite_line, rewrite_playlist_body}
use hapudding.Proxy.Origin.Lines.{rewrite_playlist_body-lines}
use hapudding.Proxy.Origin.SystemInfo.{Json, Object, text, one, lookup, rewrite_object}
use hapudding.Proxy.Origin.Info.{named_field, rewrite_object-lookup}
use hapudding.Proxy.Origin.Texts.{MovedField}
use hapudding.Proxy.Origin.Moved.{NetUrl, StaysAt, rewrite_location_headers-StaysAt}
use hapudding.Proxy.Origin.Response.{Response, rewrite_proxied_response}
use hapudding.Proxy.Origin.Frame.{Answered, NamesNull, rewrite_proxied_response-Answered}
use hapudding.Tests.Data.{two_backends}

abbrev at_parse : Bytes → Option Bytes
at_parse [] = none
at_parse (c ∷ s) = if c == b'@' then some s else none

-- A URL is an at sign and a host.
abbrev pub at_urls : Urls
at_urls = record {
  Url = Bytes;
  parse = at_parse;
  print = λ h. b'@' ∷ h;
  is_abs = λ _. true;
  scheme = λ _. codes "http";
  host = λ h. h;
  with_origin = λ w _. w;
  split_host_port = λ _. none;
}

-- Every text is a URL, and each is printed alike.
abbrev one_url : Urls
one_url = record at_urls { parse = λ s. some s; print = λ _. codes "hap" }

reads_back : NetUrl at_urls
reads_back = record {
  reads_back = λ s t v w _ _ _ _. (w, refl, refl);
  takes_host = λ v w. refl;
  empty_is_relative = λ v e. cc;
}

rewrite_playlist_body-lines_example :
    split
      (rewrite_playlist_body one_url (codes "https://hap") (codes "#EXTM3U\nhttp://jf/a.ts"))
      b'\n'
    ≡ map
        (rewrite_line one_url (codes "https://hap"))
        (split (codes "#EXTM3U\nhttp://jf/a.ts") b'\n')
rewrite_playlist_body-lines_example =
    rewrite_playlist_body-lines one_url (codes "https://hap") (codes "#EXTM3U\nhttp://jf/a.ts")
      (λ a b v w _ _. (refl, (refl, (refl, tt)))) refl

named : equal_fold (codes "Location") (codes "Location") ≡ true
unfolding equal_fold to_lower lower_byte str_eq
named = refl

rewrite_location_headers-StaysAt_example : All (StaysAt at_urls (codes "hap")) (
    values
      (rewrite_location_headers at_urls ((codes "Location", codes "@jf") ∷ []) (codes "@hap"))
      (codes "Location"))
rewrite_location_headers-StaysAt_example =
    rewrite_location_headers-StaysAt at_urls (codes "@hap") (codes "hap")
      ((codes "Location", codes "@jf") ∷ []) (codes "Location") reads_back refl refl refl
      (rw named refl)

abbrev null_decode : Bytes → Option (Option (Object ℕ))
null_decode s = if str_eq s (codes "null") then some none else none

-- No text is JSON but null, and nothing is encoded.
abbrev pub null_json : Json
null_json = record { Raw = ℕ; decode = null_decode; encode = λ _. none }

abbrev info : Object ℕ
info =
    (codes "Id", one (text (codes "x")))
    ∷ (codes "LocalAddress", one (text (codes "http://jf")))
    ∷ []

rewrite_object-lookup_example :
    let before = named_field (codes "y") [] info (codes "LocalAddress") in
    let out =
      lookup
        (codes "LocalAddress")
        (rewrite_object one_url null_json (codes "https://hap") (codes "y") [] true info).0 in
    ((true && not (is_empty (codes "https://hap"))) ≡ true
      → MovedField one_url (codes "https://hap") before out)
    × ((true && not (is_empty (codes "https://hap"))) ≡ false → out ≡ before)
rewrite_object-lookup_example =
    rewrite_object-lookup one_url null_json (codes "https://hap") (codes "y") [] true info
      (codes "LocalAddress")

abbrev staying : Config
staying = record two_backends {
  stay_on_origin = record { enabled = some true; rewrite_playlists = none };
  translate = record { enabled = some true; id = codes "y"; name = codes "hap" };
}

abbrev pub from_hap : Incoming
from_hap = record { header = []; host = codes "hap"; is_tls = true; remote_addr = codes "::1" }

abbrev moved_answer : Response
moved_answer = record {
  status = 302;
  header = (codes "Location", codes "@jf") ∷ [];
  content_length = pos 0;
  body = some [];
}

rewrite_proxied_response-Answered_example :
    Answered moved_answer
      (NamesNull at_urls null_json staying moved_answer (codes "GET") (codes "/Items"))
      (rewrite_proxied_response at_urls null_json staying moved_answer from_hap
        (codes "GET")
        (codes "/Items"))
rewrite_proxied_response-Answered_example =
    rewrite_proxied_response-Answered at_urls null_json staying moved_answer from_hap (codes "GET")
      (codes "/Items")
