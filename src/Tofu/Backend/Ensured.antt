-- ===== src/Tofu/Backend/Ensured.antt =====
-- What ensureBucket and ensureLockTable have in common: a read, and a create of what is not there.
use queuezero.Prelude.{◌≡◌, refl, ap, sym, ◌∙◌, String, Bool, true, Option, none, some, arith}
use queuezero.Tofu.Backend.{ReadError, not_found, failed, BackendError, created, ensured}

-- One resource: whether it is in the inventory, its read, which may say that it is not there although it is,
-- and its create.
module _ {W I : Type 0} (inventory : W → I) (has : I → Bool) (read : W → Option ReadError × W)
    (make : W → Option String × W) (reads : (w : W) → inventory (read w).1 ≡ inventory w)
    (found : (w : W) → (read w).0 ≡ none → has (inventory w) ≡ true)
    (made : (w : W) → (make w).0 ≡ none → has (inventory (make w).1) ≡ true)
    (again : (w : W) → has (inventory w) ≡ true → inventory (make w).1 ≡ inventory w)
    (wrap_read wrap_make : String → BackendError) where
  abbrev pub ensure : W → Option BackendError × W
  ensure w = ensured wrap_read (λ v. created wrap_make (make v)) (read w)

  created_there :
      (r : Option String × W)
      → (r.0 ≡ none → has (inventory r.1) ≡ true)
      → (created wrap_make r).0 ≡ none
      → has (inventory (created wrap_make r).1) ≡ true
  created_there (none, w) h e = h refl
  created_there (some x, w) h e = absurd (ground arith)

  created_world : (r : Option String × W) → (created wrap_make r).1 ≡ r.1
  created_world (none, w) = refl
  created_world (some x, w) = refl

  -- What the read leaves, of the inventory.
  left_by_read : (w : W) (r : Option ReadError × W) → read w ≡ r → inventory r.1 ≡ inventory w
  left_by_read w r e = ap (λ (x : Option ReadError × W). inventory x.1) (sym e) ∙ reads w

  there_after :
      (w : W) (r : Option ReadError × W)
      → read w ≡ r
      → (ensured wrap_read (λ v. created wrap_make (make v)) r).0 ≡ none
      → has (inventory (ensured wrap_read (λ v. created wrap_make (make v)) r).1) ≡ true
  there_after w (none, v) e h =
      ap has (left_by_read w (none, v) e) ∙ found w (ap (λ (r : Option ReadError × W). r.0) e)
  there_after w (some (failed x), v) e h = absurd (ground arith)
  there_after w (some not_found, v) e h = created_there (make v) (made v) h

  -- What holds of the inventory after a create in any world that the read may leave.
  kept_by :
      {K : Type 0} (kept : I → K) (w : W) (r : Option ReadError × W)
      → read w ≡ r
      → ((v : W) → inventory v ≡ inventory w → kept (inventory (make v).1) ≡ kept (inventory w))
      → kept (inventory (ensured wrap_read (λ v. created wrap_make (make v)) r).1)
        ≡ kept (inventory w)
  kept_by kept w (none, v) e h = ap kept (left_by_read w (none, v) e)
  kept_by kept w (some (failed x), v) e h = ap kept (left_by_read w (some (failed x), v) e)
  kept_by kept w (some not_found, v) e h =
      ap (λ (x : W). kept (inventory x)) (created_world (make v))
      ∙ h v (left_by_read w (some not_found, v) e)

  pub ensure_there : (w : W) → (ensure w).0 ≡ none → has (inventory (ensure w).1) ≡ true
  ensure_there w h = there_after w (read w) refl h

  pub ensure_untouched : (w : W) → has (inventory w) ≡ true → inventory (ensure w).1 ≡ inventory w
  ensure_untouched w h =
      kept_by (λ i. i) w (read w) refl (λ v same. again v (ap has same ∙ h) ∙ same)

  -- What a create leaves, this leaves.
  pub ensure_keeps :
      (kept : I → Bool)
      → ((w : W) → kept (inventory (make w).1) ≡ kept (inventory w))
      → (w : W) → kept (inventory (ensure w).1) ≡ kept (inventory w)
  ensure_keeps kept keeps w = kept_by kept w (read w) refl (λ v same. keeps v ∙ ap kept same)
