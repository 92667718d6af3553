-- ===== src/Window/Cells.antt =====
-- `TableDataSource` for `TrafficDataSource`: what a table reads from the rows.
use simple_forwarder.Prelude.{ℕ, none, some, List, [], ◌==◌, ◌||◌, if◌then◌else◌, get_elem?, length}
use simple_forwarder.Text.{Bytes, contains}
use simple_forwarder.Stats.Sizes.{format_bytes}
use simple_forwarder.Tracker.Defs.{ConnectionInfo, show_status}
use simple_forwarder.Window.Highlights.{TrafficDataSource}

-- A colour is given in hundredths.
pub data TableValue : Type 0 where
  text : Bytes → TableValue
  color : ℕ → ℕ → ℕ → ℕ → TableValue

abbrev pub highlight : TableValue
highlight = color 10 55 10 100

abbrev pub default_color : TableValue
default_color = color 0 0 0 100

abbrev pub col_bytes_sent : ℕ
col_bytes_sent = 7

abbrev pub col_bytes_recv : ℕ
col_bytes_recv = 8

abbrev pub col_color_sent : ℕ
col_color_sent = 9

abbrev pub col_color_recv : ℕ
col_color_recv = 10

unfoldable pub num_rows : TrafficDataSource → ℕ
num_rows ds = length ds.connections

-- A value for a row that is not there.
unfoldable pub no_cell : ℕ → TableValue
no_cell column =
    if column == col_color_sent || column == col_color_recv then default_color else text []

unfoldable pub row_color : List ℕ → ℕ → TableValue
row_color top id = if contains top id then highlight else default_color

-- The column of a connection. The first two arguments are the counters at the time of the call.
unfoldable pub row_cell : (ℕ → ℕ) → (ℕ → ℕ) → TrafficDataSource → ConnectionInfo → ℕ → TableValue
unfolding row_color
row_cell bytes_sent bytes_received ds conn column =
    if column == 0
    then text conn.source_ip
    else if column == 1
    then text conn.outbound_target
    else if column == 2
    then text conn.exe_name
    else if column == 3
    then text conn.proxy_protocol
    else if column == 4
    then text conn.proxy
    else if column == 5
    then text conn.start_time
    else if column == 6
    then text (show_status conn.status)
    else if column == col_bytes_sent
    then text (format_bytes (bytes_sent conn.id))
    else if column == col_bytes_recv
    then text (format_bytes (bytes_received conn.id))
    else if column == col_color_sent
    then row_color ds.top_sent conn.id
    else if column == col_color_recv
    then row_color ds.top_recv conn.id
    else text []

unfoldable pub cell : (ℕ → ℕ) → (ℕ → ℕ) → TrafficDataSource → ℕ → ℕ → TableValue
unfolding row_cell no_cell
cell bytes_sent bytes_received ds column row = elim (get_elem? ds.connections row) [
  | none ↦ no_cell column
  | some conn ↦ row_cell bytes_sent bytes_received ds conn column
]
