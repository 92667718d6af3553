-- ===== src/Server/Http/ConnectText.antt =====
-- The CONNECT request that the program's client writes (src/proxy_client.rs), at the parser of its
-- own HTTP handler (src/proxy_server.rs).
use simple_forwarder.Prelude.{
  ℕ, suc, ◌+◌, ◌<◌, ◌≡◌, refl, sym, ap, ◌∙◌, false, none, some, [], ◌∷◌, ◌++◌, arith, append_assoc,
  All, ◌==◌, length, length-append, take, drop, position, position_found,
}
use simple_forwarder.Text.{Bytes, codes}
use simple_forwarder.Text.Utf8.{from_utf8_lossy, from_utf8_lossy_ascii}
use simple_forwarder.Text.Words.{trim, split_whitespace}
use simple_forwarder.Text.Words.Plain.{
  IsVisible, IsWord, three_words, trim-three_words, split_whitespace-three_words,
}
use simple_forwarder.Text.Pieces.{position-append}
use simple_forwarder.Util.{separator_from, separator_width, find_header_separator}
use simple_forwarder.Util.Separator.{find_header_separator_start}
use simple_forwarder.Outcome.{done}
use simple_forwarder.Crates.{Crates}
use simple_forwarder.Server.Http.Parse.{
  RequestLine, Authority, HttpRequest, parse_words, parse_request_line, is_connect_method,
  authority, connect_authority, split_request, parse_request,
}

no_width : (a b : ℕ) (s : Bytes) → (a == b'\n') ≡ false → separator_width a b s ≡ 0
unfolding separator_width
no_width a b s h = rw h refl

-- Text without a line feed holds no separator.
separator_from-skip :
    (i : ℕ) (w : Bytes) (x : ℕ) (t : Bytes)
    → position b'\n' w ≡ none
    → separator_from i (w ++ x ∷ t) ≡ separator_from (i + length w) (x ∷ t)
unfolding separator_from
separator_from-skip i [] x t h = ap (λ (j : ℕ). separator_from j (x ∷ t)) (omega arith)
separator_from-skip i (a ∷ []) x t h =
    let other : (a == b'\n') ≡ false = ground arith in rw (no_width a x t other) refl
separator_from-skip i (a ∷ b ∷ w) x t h =
    let other : (a == b'\n') ≡ false = ground arith in
    rw (no_width a b (w ++ x ∷ t) other) (
      separator_from-skip (i + 1) (b ∷ w) x t (ground arith)
      ∙ ap (λ (j : ℕ). separator_from j (x ∷ t)) (omega arith))

-- Two lines and the empty line behind them.
separator_two_lines :
    (a b : Bytes) (rest : Bytes)
    → position b'\n' a ≡ none
    → position b'\n' (b'H' ∷ b) ≡ none
    → separator_from 0 (a ++ b'\n' ∷ (b'H' ∷ b ++ b'\n' ∷ b'\r' ∷ b'\n' ∷ rest))
      ≡ some (length (a ++ b'\n' ∷ (b'H' ∷ b ++ b'\n' ∷ b'\r' ∷ b'\n' ∷ [])))
unfolding separator_from separator_width
separator_two_lines a b rest h k =
    separator_from-skip 0 a b'\n' _ h
    ∙ separator_from-skip (0 + length a + 1) (b'H' ∷ b) b'\n' (b'\r' ∷ b'\n' ∷ rest) k
    ∙ ap some (
        omega (
          arith,
          length-append a (b'\n' ∷ (b'H' ∷ b ++ b'\n' ∷ b'\r' ∷ b'\n' ∷ [])),
          length-append (b'H' ∷ b) (b'\n' ∷ b'\r' ∷ b'\n' ∷ []),
        ))

visible_no_feed : (s : Bytes) → All IsVisible s → position b'\n' s ≡ none
visible_no_feed [] h = refl
visible_no_feed (c ∷ s) h = ground (arith, visible_no_feed s h.1)

visible_ascii : (s : Bytes) → All IsVisible s → All (λ c. c < 0x80) s
visible_ascii [] h = tt
visible_ascii (c ∷ s) h = (omega (arith, h.0), visible_ascii s h.1)

pub All-append : (P : ℕ → Type 0) (s t : Bytes) → All P s → All P t → All P (s ++ t)
All-append P [] t h k = k
All-append P (c ∷ s) t h k = (h.0, All-append P s t h.1 k)

abbrev connect_line : Bytes → RequestLine
connect_line auth = record {
  method = codes "CONNECT";
  uri = auth;
  version = some (codes "HTTP/1.1");
}

-- A line is cut off behind its line feed.
split_line :
    (x t : Bytes)
    → position b'\n' x ≡ none
    → split_request (x ++ b'\n' ∷ t) ≡ done (x ++ b'\n' ∷ [], t)
unfolding split_request
split_line x t h = rw (position_found b'\n' x t h, split_request, take_line x, drop_line x) refl
  where
    take_line : (y : Bytes) → take (suc (length y)) (y ++ b'\n' ∷ t) ≡ y ++ b'\n' ∷ []
    take_line [] = refl
    take_line (c ∷ y) = ap (◌∷◌ c) (take_line y)

    drop_line : (y : Bytes) → drop (suc (length y)) (y ++ b'\n' ∷ t) ≡ t
    drop_line [] = refl
    drop_line (c ∷ y) = drop_line y

-- A request for the authority, in its two lines.
module _ (auth : Bytes) where
  abbrev request_text : Bytes
  request_text =
      codes "CONNECT " ++ (auth ++ (codes " HTTP/1.1\r\nHost: " ++ (auth ++ codes "\r\n\r\n")))

  abbrev first_words : Bytes
  first_words = codes "CONNECT" ++ 32 ∷ (auth ++ 32 ∷ codes "HTTP/1.1\r")

  abbrev host_line : Bytes
  host_line = codes "ost: " ++ (auth ++ b'\r' ∷ [])

  request_text-lines :
      request_text ≡ first_words ++ b'\n' ∷ (b'H' ∷ host_line ++ b'\n' ∷ b'\r' ∷ b'\n' ∷ [])
  request_text-lines = simp append_assoc

  abbrev pub connect_request_to : Authority → HttpRequest
  connect_request_to a = record {
    request_line = first_words ++ b'\n' ∷ [];
    line = connect_line auth;
    target = a;
    headers = b'H' ∷ host_line ++ b'\n' ∷ b'\r' ∷ b'\n' ∷ [];
  }

  module _ (v : All IsVisible auth) where
    first_words_no_feed : position b'\n' first_words ≡ none
    first_words_no_feed =
        position-append b'\n' (codes "CONNECT ") (auth ++ 32 ∷ codes "HTTP/1.1\r") refl
          (position-append b'\n' auth (32 ∷ codes "HTTP/1.1\r") (visible_no_feed auth v) refl)

    host_line_no_feed : position b'\n' (b'H' ∷ host_line) ≡ none
    host_line_no_feed =
        position-append b'\n' (codes "Host: ") (auth ++ 13 ∷ []) refl
          (position-append b'\n' auth (13 ∷ []) (visible_no_feed auth v) refl)

    pub separator_request :
        (rest : Bytes) → find_header_separator (request_text ++ rest) 0 ≡ some (length request_text)
    separator_request rest =
        let lines : request_text ++ rest
            ≡ first_words ++ b'\n' ∷ (b'H' ∷ host_line ++ b'\n' ∷ b'\r' ∷ b'\n' ∷ rest) =
          simp append_assoc in
        find_header_separator_start (request_text ++ rest)
        ∙ ap (separator_from 0) lines
        ∙ separator_two_lines first_words host_line rest first_words_no_feed host_line_no_feed
        ∙ ap (λ (t : Bytes). some (length t)) (sym request_text-lines)

    first_line_words :
        first_words ++ b'\n' ∷ []
        ≡ codes "CONNECT" ++ 32 ∷ (auth ++ 32 ∷ (codes "HTTP/1.1" ++ 13 ∷ 10 ∷ []))
    first_line_words = simp append_assoc

    first_line_ascii :
        All
          (λ c. c < 0x80)
          (codes "CONNECT" ++ 32 ∷ (auth ++ 32 ∷ (codes "HTTP/1.1" ++ 13 ∷ 10 ∷ [])))
    first_line_ascii =
        All-append (λ c. c < 0x80) (codes "CONNECT ")
          (auth ++ 32 ∷ (codes "HTTP/1.1" ++ 13 ∷ 10 ∷ [])) (ground arith)
          (All-append (λ c. c < 0x80) auth (32 ∷ (codes "HTTP/1.1" ++ 13 ∷ 10 ∷ []))
            (visible_ascii auth v) (ground arith))

    -- The request is parsed as a CONNECT to the authority, if that is a word.
    module _ (word : IsWord auth) where
      parse_first_line : parse_request_line (first_words ++ b'\n' ∷ []) ≡ done (connect_line auth)
      unfolding parse_request_line parse_words
      parse_first_line =
          ap (λ (x : Bytes). parse_words (trim x) (split_whitespace (trim x)))
            (ap from_utf8_lossy first_line_words ∙ from_utf8_lossy_ascii _ first_line_ascii)
          ∙ ap (λ (x : Bytes). parse_words x (split_whitespace x))
              (trim-three_words (codes "CONNECT") auth (codes "HTTP/1.1") (ground arith) word
                (ground arith))
          ∙ ap (parse_words (three_words (codes "CONNECT") auth (codes "HTTP/1.1"))) (
              split_whitespace-three_words (codes "CONNECT") auth (codes "HTTP/1.1") (ground arith)
                word (ground arith))

      pub parse_connect :
          (c : Crates) {a : Authority}
          → connect_authority auth ≡ done a
          → parse_request c request_text ≡ done (connect_request_to a)
      unfolding parse_request authority is_connect_method
      parse_connect c e =
          rw
            (
              ap split_request request_text-lines
                  ∙ split_line first_words (b'H' ∷ host_line ++ b'\n' ∷ b'\r' ∷ b'\n' ∷ [])
                      first_words_no_feed,
              parse_first_line,
              e,
            )
            refl
