-- ===== src/Server/Socks4/Fields.antt =====
-- The loop that reads the fields of a SOCKS4 client, in whatever segments they arrive.
use simple_forwarder.Prelude.{
  ℕ, zero, suc, ◌≤◌, ◌<◌, ◌≡◌, refl, sym, ap, ◌∙◌, ◌⊎◌, ◌≢◌, inl, inr, Bool, true, false, none,
  List, [], ◌∷◌, ◌++◌, arith, append_assoc, ltb, is_nil, length, length-append, position, overlap,
}
use simple_forwarder.Text.{Bytes, codes}
use simple_forwarder.Net.Error.{message}
use simple_forwarder.Net.Stream.{Stream, Res, ok, err, bind, read, unread}
use simple_forwarder.Net.Stream.Laws.{Reads, more, over, read-Reads}
use simple_forwarder.Server.Socks4.Defs.{Ends, scan, is_complete, field_loop, no_ends, read_fields}
use simple_forwarder.Server.Socks4.Scan.{
  fields, ends, scanned, scan-fields, scanned_cut, IsStale, scan-IsStale,
}

-- The loop ends with the terminators and at least the fields, and leaves the rest in order.
abbrev Collects : Bool → Bytes → Bytes → Bytes → Stream → Res (Ends × Bytes) → Type 0
Collects is_socks4a user domain rest s r =
    (past : Bytes) × (segs : List Bytes) × (r
      ≡ ok (ends is_socks4a user domain, fields is_socks4a user domain ++ past)
          (record s { incoming = segs }))
    × (past ++ unread segs ≡ rest)

module _ (is_socks4a : Bool) (fuel : ℕ) (e : Ends) (buf : Bytes) (s : Stream) where
  abbrev on_bytes : Res Bytes → Res (Ends × Bytes)
  on_bytes r = bind r λ b s'. elim (is_nil b) [
    | true ↦ err (message (codes "Connection closed during SOCKS4 handshake")) s'
    | false ↦ field_loop is_socks4a fuel (scan is_socks4a e buf) (buf ++ b) s'
  ]

  round_done :
      is_complete is_socks4a (scan is_socks4a e buf) ≡ true
      → field_loop is_socks4a (suc fuel) e buf s ≡ ok (scan is_socks4a e buf, buf) s
  unfolding field_loop
  round_done h = rw (h, field_loop)

  round_reads :
      is_complete is_socks4a (scan is_socks4a e buf) ≡ false
      → ltb 1024 (length buf) ≡ false
      → field_loop is_socks4a (suc fuel) e buf s ≡ on_bytes (read 256 s)
  unfolding field_loop
  round_reads h k = rw (h, field_loop) (rw (k, field_loop))

  on_read :
      (P : Res (Ends × Bytes) → Type 0)
      → ((b : Bytes) (segs : List Bytes)
          → 0 < length b
          → unread s.incoming ≡ b ++ unread segs
          → P (
              field_loop is_socks4a fuel
                (scan is_socks4a e buf)
                (buf ++ b)
                (record s { incoming = segs })))
      → unread s.incoming ≢ []
      → (r : Res Bytes) → Reads s r
      → P (on_bytes r)
  on_read P again some_left r (more [] segs pos u) = absurd (omega arith)
  on_read P again some_left r (more (c ∷ b) segs pos u) = again (c ∷ b) segs pos u
  on_read P again some_left r (over u) = absurd (some_left u)

IsStale-append :
    (is_socks4a : Bool) (e : Ends) (buf b : Bytes)
    → IsStale is_socks4a e buf
    → IsStale is_socks4a e (buf ++ b)
IsStale-append is_socks4a e buf b stale t = rw (append_assoc buf b t) (stale (b ++ t))

module _ (is_socks4a : Bool) (user domain rest : Bytes) (no_zero : position 0 user ≡ none)
    (no_zero' : position 0 domain ≡ none)
    (small : length (fields is_socks4a user domain) ≤ 1024) where
  abbrev wanted : Bytes
  wanted = fields is_socks4a user domain

  -- Bytes that hold all the fields, or stop in front of a terminator.
  collects :
      (buf t : Bytes)
      → buf ++ t ≡ wanted ++ rest
      → ((past : Bytes) × (buf ≡ wanted ++ past)
          × (past ++ t ≡ rest)
          × (scan is_socks4a no_ends buf ≡ ends is_socks4a user domain))
        ⊎ ((scanned is_socks4a buf ≡ false) × (length buf < length wanted))
  collects buf t e = elim (overlap buf t wanted rest e) [
    | inl (past, p, q) ↦
        inl (past, p, q, rw p (scan-fields is_socks4a user domain past no_zero no_zero'))
    | inr (c, left, p) ↦ inr (
      scanned_cut is_socks4a user domain buf c left no_zero no_zero' p,
      omega (arith, ap (λ (l : Bytes). length l) p, length-append buf (c ∷ left)),
    )
  ]

  complete_ends : is_complete is_socks4a (ends is_socks4a user domain) ≡ true
  complete_ends = elim is_socks4a as (λ b. is_complete b (ends b user domain) ≡ true) [
    | true ↦ refl
    | false ↦ refl
  ]

  field_loop_lem :
      (fuel : ℕ) (e : Ends) (buf : Bytes) (s : Stream)
      → length (unread s.incoming) < fuel
      → IsStale is_socks4a e buf
      → buf ++ unread s.incoming ≡ wanted ++ rest
      → Collects is_socks4a user domain rest s (field_loop is_socks4a fuel e buf s)
  field_loop_lem zero e buf s f stale all = elim f [ ]
  field_loop_lem (suc fuel) e buf s f stale all =
      let (same, stale') = scan-IsStale is_socks4a e buf stale in
      elim (collects buf (unread s.incoming) all) [
        | inl (past, p, q, there) ↦ (
          past,
          s.incoming,
          round_done is_socks4a fuel e buf s
                (ap (is_complete is_socks4a) (same ∙ there) ∙ complete_ends)
              ∙ cc (same, there, p),
          q,
        )
        | inr (short, less) ↦
            rw
              (round_reads is_socks4a fuel e buf s (ap (is_complete is_socks4a) same ∙ short)
                (ground arith))
              (on_read is_socks4a fuel e buf s (Collects is_socks4a user domain rest s)
                (λ b segs pos u.
                  field_loop_lem fuel (scan is_socks4a e buf) (buf ++ b)
                    (record s { incoming = segs })
                    (omega (arith, ap (λ (l : Bytes). length l) u, length-append b (unread segs)))
                    (IsStale-append is_socks4a (scan is_socks4a e buf) buf b stale')
                    (append_assoc buf b (unread segs) ∙ ap (λ (x : Bytes). buf ++ x) (sym u) ∙ all))
                (λ none_left. omega (
                  arith,
                  less,
                  ap (λ (x : Bytes). length (buf ++ x)) none_left,
                  ap (λ (x : Bytes). length x) all,
                  length-append wanted rest,
                  length-append buf [],
                ))
                (read 256 s) (read-Reads 255 s))
      ]

  pub read_fields_lem :
      (s : Stream)
      → unread s.incoming ≡ wanted ++ rest
      → Collects is_socks4a user domain rest s (read_fields is_socks4a s)
  read_fields_lem s e =
      field_loop_lem (suc (length (unread s.incoming))) no_ends [] s (omega arith) (λ t. refl) e
