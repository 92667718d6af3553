-- ===== src/Tray/Autostart.antt =====
-- The start with the system: `set_autostart` and `check_autostart_status`, over the registry.
pub mod Laws
use simple_forwarder.Prelude.{
  ℕ, ◌+◌, ◌-◌, ◌*◌, ◌/◌, ◌<◌, ◌≤◌, ◌≡◌, ◌≢◌, refl, sym, ap, ◌∙◌, Bool, true, false, ◌&&◌, List, [],
  ◌∷◌, ◌++◌, arith, ◌==◌, if◌then◌else◌, All, length, take,
}
use simple_forwarder.Text.{Bytes, codes, eq_bytes}
use simple_forwarder.Text.Decimal.{show_dec}
use simple_forwarder.Text.Utf16.{
  IsScalar, encode_utf16, from_utf16_lossy, from_utf16_lossy-encode_utf16,
}
use simple_forwarder.Net.Error.{message}
use simple_forwarder.Outcome.{Outcome, done, failed}

-- What RegQueryValueExW gives: its status, the type of the value, the length of its data in bytes, and
-- the buffer, in wide characters.
pub record Query : Type 0 where
  pub status : ℕ
  pub dw_type : ℕ
  pub len : ℕ
  pub buffer : List ℕ

-- The calls of the registry, on its state; a key stands for its handle. Statuses are 0 on success.
pub record Registry (R : Type 0) : Type 0 where
  -- RegOpenKeyExW
  pub open_key : List ℕ → R → ℕ
  -- RegQueryValueExW: the key, the name, and the size of the buffer in bytes
  pub query_value : List ℕ → List ℕ → ℕ → R → Query
  -- RegSetValueExW for a REG_SZ, with its data in wide characters, and RegDeleteValueW
  pub set_value : List ℕ → List ℕ → List ℕ → R → ℕ × R
  pub delete_value : List ℕ → List ℕ → R → ℕ × R

abbrev pub run_registry_path : List ℕ
run_registry_path = codes "Software\\Microsoft\\Windows\\CurrentVersion\\Run" ++ 0 ∷ []

abbrev pub reg_app_name : List ℕ
reg_app_name = codes "SimpleForwarder" ++ 0 ∷ []

-- REGISTRY_BUFFER_SIZE
abbrev pub registry_buffer_size : ℕ
registry_buffer_size = 1024

abbrev pub reg_sz : ℕ
reg_sz = 1

module _ {R : Type 0} (w : Registry R) where
  -- The value of the key, as it is compared: without its last character, which is the zero.
  unfoldable pub actual_path : R → Query
  actual_path r = w.query_value run_registry_path reg_app_name (registry_buffer_size * 2) r

  -- `lower` is `to_lowercase`.
  unfoldable pub check_autostart_status : (List ℕ → List ℕ) → List ℕ → R → Bool
  unfolding actual_path
  check_autostart_status lower expected_path r =
      let q = actual_path r in
      (w.open_key run_registry_path r == 0)
      && ((q.status == 0)
          && ((q.dw_type == reg_sz)
              && eq_bytes (lower (from_utf16_lossy (take (q.len / 2 - 1) q.buffer)))
                  (lower expected_path)))

  abbrev closed_with : ℕ × R → Outcome (Unit {0}) × R
  closed_with (res, r) =
      if res == 0
      then (done tt, r)
      else (failed (message (codes "Registry operation failed: error code " ++ show_dec res)), r)

  unfoldable pub set_autostart : List ℕ → Bool → R → Outcome (Unit {0}) × R
  set_autostart path enabled r =
      let status = w.open_key run_registry_path r in
      if status == 0
      then closed_with (
          if enabled
          then w.set_value run_registry_path reg_app_name (encode_utf16 path ++ 0 ∷ []) r
          else w.delete_value run_registry_path reg_app_name r)
      else (
        failed (message (codes "Failed to open registry key: error code " ++ show_dec status)),
        r,
      )
