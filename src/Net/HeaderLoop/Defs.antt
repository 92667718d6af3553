-- ===== src/Net/HeaderLoop/Defs.antt =====
-- The loop, on fuel: each round but the last reads a byte at least.
use simple_forwarder.Prelude.{
  ℕ, zero, suc, true, false, none, some, ◌++◌, ltb, if◌then◌else◌, is_nil, length, take, drop,
}
use simple_forwarder.Text.{Bytes}
use simple_forwarder.Util.{find_header_separator}
use simple_forwarder.Net.Error.{Error}
use simple_forwarder.Net.Stream.{Stream, ok, err, hang, M, bind, read, unread}

-- The limit and the messages in which the two loops differ.
pub record Limits : Type 0 where
  pub max_len : ℕ
  pub too_long : Error
  pub closed_early : Error

unfoldable pub header_loop : Limits → ℕ → Bytes → ℕ → M (Bytes × Bytes)
header_loop l zero buf start_pos s = hang s
header_loop l (suc fuel) buf start_pos s = elim (find_header_separator buf start_pos) [
  | some pos ↦ if ltb l.max_len pos then err l.too_long s else ok (take pos buf, drop pos buf) s
  | none ↦ elim (ltb l.max_len (length buf)) [
    | true ↦ err l.too_long s
    | false ↦ bind (read 1024 s) λ b s'. elim (is_nil b) [
      | true ↦ err l.closed_early s'
      | false ↦ header_loop l fuel (buf ++ b) (length buf) s'
    ]
  ]
]

-- Fuel for every byte that is still to come, for the round that finds the end of the stream.
abbrev pub enough : Stream → ℕ
enough s = suc (length (unread s.incoming))
