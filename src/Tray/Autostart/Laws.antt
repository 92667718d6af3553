-- ===== src/Tray/Autostart/Laws.antt =====
-- `set_autostart` and `check_autostart_status` of src/tray.rs, one after the other.
use simple_forwarder.Prelude.{
  ℕ, ◌-◌, ◌*◌, ◌/◌, ◌<◌, ◌≤◌, ◌≡◌, ◌≢◌, refl, sym, ap, ◌∙◌, Bool, true, false, List, [], ◌∷◌, ◌++◌,
  arith, ◌==◌, All, length, take, length-append, append_assoc, take-length-append, if◌then◌else◌,
  Bool-cases, inl, inr,
}
use simple_forwarder.Text.{eq_bytes_iff}
use simple_forwarder.Text.Utf16.{IsScalar, encode_utf16, from_utf16_lossy-encode_utf16}
use simple_forwarder.Outcome.{done}
use simple_forwarder.Tray.Autostart.{
  Query, Registry, run_registry_path, reg_app_name, registry_buffer_size, reg_sz, actual_path,
  check_autostart_status, set_autostart, closed_with,
}

-- The data of a REG_SZ, at the front of a buffer.
pub record Reads (units : List ℕ) (q : Query) : Type 0 where
  pub succeeded : q.status ≡ 0
  pub of_text : q.dw_type ≡ reg_sz
  pub counted : q.len ≡ length units * 2
  pub behind : List ℕ
  pub copied : q.buffer ≡ units ++ behind

-- What Windows documents of the four calls: a value that was set is read back into a buffer that is
-- large enough, a deleted value is not found, a failure changes nothing, and a key that opens does so
-- again.
pub record Documented {R : Type 0} (w : Registry R) : Type 0 where
  pub reads_set :
      (key name units : List ℕ) (n : ℕ) (r r' : R)
      → w.set_value key name units r ≡ (0, r')
      → length units * 2 ≤ n
      → Reads units (w.query_value key name n r')
  pub not_found :
      (key name : List ℕ) (n : ℕ) (r r' : R)
      → w.delete_value key name r ≡ (0, r')
      → (w.query_value key name n r').status ≢ 0
  pub opens_set :
      (key name units : List ℕ) (r : R)
      → w.open_key key (w.set_value key name units r).1 ≡ w.open_key key r
  pub opens_deleted :
      (key name : List ℕ) (r : R) → w.open_key key (w.delete_value key name r).1 ≡ w.open_key key r
  pub keeps_set :
      (key name units : List ℕ) (r : R)
      → (w.set_value key name units r).0 ≢ 0
      → (w.set_value key name units r).1 ≡ r
  pub keeps_deleted :
      (key name : List ℕ) (r : R)
      → (w.delete_value key name r).0 ≢ 0
      → (w.delete_value key name r).1 ≡ r

module _ {R : Type 0} (w : Registry R) where
  closed_with_done : (x : ℕ × R) {r' : R} → closed_with w x ≡ (done tt, r') → x ≡ (0, r')
  closed_with_done (res, r) {r'} h = ground arith

  -- A change that succeeds has opened the key and made its call.
  set_autostart_done :
      (path : List ℕ) (enabled : Bool) (r : R) {r' : R}
      → set_autostart w path enabled r ≡ (done tt, r')
      → (w.open_key run_registry_path r ≡ 0)
        × ((if enabled
              then w.set_value run_registry_path reg_app_name (encode_utf16 path ++ 0 ∷ []) r
              else w.delete_value run_registry_path reg_app_name r)
            ≡ (0, r'))
  unfolding set_autostart
  set_autostart_done path enabled r {r'} h =
      elim (Bool-cases (w.open_key run_registry_path r == 0)) [
        | inl opens ↦
            let made : set_autostart w path enabled r
                ≡ closed_with w (
                    if enabled
                    then w.set_value run_registry_path reg_app_name (encode_utf16 path ++ 0 ∷ []) r
                    else w.delete_value run_registry_path reg_app_name r) =
              rw opens refl in
            (ground arith, closed_with_done _ (sym made ∙ h))
        | inr shut ↦ ground arith
      ]

  -- A change that fails leaves the registry as it was.
  pub set_autostart_failed :
      (path : List ℕ) (enabled : Bool) (r : R)
      → Documented w
      → (set_autostart w path enabled r).0 ≢ done tt
      → (set_autostart w path enabled r).1 ≡ r
  unfolding set_autostart
  set_autostart_failed path true r doc h =
      ground (arith, doc.keeps_set run_registry_path reg_app_name (encode_utf16 path ++ 0 ∷ []) r)
  set_autostart_failed path false r doc h =
      ground (arith, doc.keeps_deleted run_registry_path reg_app_name r)

  module _ (doc : Documented w) (lower : List ℕ → List ℕ) where
    -- The value that was set is the path.
    check-Reads :
        (path : List ℕ) (r : R)
        → All IsScalar path
        → w.open_key run_registry_path r ≡ 0
        → Reads (encode_utf16 path ++ 0 ∷ []) (actual_path w r)
        → check_autostart_status w lower path r ≡ true
    unfolding check_autostart_status
    check-Reads path r scalar opens reads =
        rw (opens, reads.succeeded, reads.of_text, value, from_utf16_lossy-encode_utf16 path scalar)
          ((eq_bytes_iff (lower path) (lower path)).1 refl)
      where
        e : List ℕ
        e = encode_utf16 path

        value : take ((actual_path w r).len / 2 - 1) (actual_path w r).buffer ≡ e
        value =
            let n : (actual_path w r).len / 2 - 1 ≡ length e =
              omega (arith, reads.counted, length-append e (0 ∷ [])) in
            rw (n, reads.copied, append_assoc e (0 ∷ []) reads.behind)
              (take-length-append e (0 ∷ reads.behind))

    -- What `set_autostart` has set, `check_autostart_status` finds, as long as the path is one character
    -- shorter than the buffer: the program starts with the system exactly if that was set.
    pub check_autostart_status-set_autostart :
        (path : List ℕ) (enabled : Bool) (r r' : R)
        → All IsScalar path
        → length (encode_utf16 path) < registry_buffer_size
        → set_autostart w path enabled r ≡ (done tt, r')
        → check_autostart_status w lower path r' ≡ enabled
    unfolding actual_path check_autostart_status
    check_autostart_status-set_autostart path true r r' scalar fits h =
        let (opens, wrote) = set_autostart_done path true r h in
        let at : r'
            ≡ (w.set_value run_registry_path reg_app_name (encode_utf16 path ++ 0 ∷ []) r).1 =
          sym (ap (λ x. x.1) wrote) in
        check-Reads path r' scalar
          (ap (w.open_key run_registry_path) at ∙ doc.opens_set _ _ _ r ∙ opens)
          (doc.reads_set _ _ _ _ r r' wrote
            (omega (arith, length-append (encode_utf16 path) (0 ∷ []))))
    check_autostart_status-set_autostart path false r r' scalar fits h =
        let (opens, wrote) = set_autostart_done path false r h in
        let missing = doc.not_found _ _ (registry_buffer_size * 2) _ _ wrote in ground arith
