-- ===== src/Boot/InstallLoop.antt =====
-- The loop of `fd_boot_install` comes to its end.
use mathlib.Core.Path.{subst}
use firefly_zephyr.Base.{ℕ, zero, suc, ◌+◌, ◌-◌, ◌^◌, ◌≤◌, ◌<◌, ◌≡◌, refl, arith, ltb, ltb→lt}
use firefly_zephyr.Base.Words.{add32}
use firefly_zephyr.Boot.Types.{decrypt_block_size}
use firefly_zephyr.Boot.Interface.{M, Machine, Result, ok, fail, Interface, act}
use firefly_zephyr.Boot.Hash.{block_length}
use firefly_zephyr.Boot.Install.{Progress, erase_ahead, install_block, install_loop}
use firefly_zephyr.Boot.Triple.{
  Triple, Outcome, Triple-bind, Triple-pure, Triple-if, Triple_given_both, Triple_mono,
}

module _ {W : Type 0} where
  abbrev Any : Machine W → Type 0
  Any m = Unit {0}

  Triple-Any : {A : Type 0} (a : M W A) → Triple Any a (λ x. Any) Any
  Triple-Any {A} a = record { runs = λ m h. any (a m) }
    where
      any : (r : Result A × Machine W) → Outcome (λ x. Any) Any r
      any (ok x, m) = tt
      any (fail, m) = tt

block_length-pos :
    (location end : ℕ)
    → location < end
    → end < 2 ^ 32
    → let n = block_length 16 location end in
      (0 < n) × (add32 location n ≡ location + n) × (location + n ≤ end)
unfolding block_length
block_length-pos location end p q = ground arith

module _ {W : Type 0} (interface : Interface W) (executable_length block_count end : ℕ)
    (small : end < 2 ^ 32) where
  -- A block moves on by its length.
  install_block-Triple :
      (p : Progress)
      → Triple Any
          (install_block interface executable_length block_count end p)
          (λ p' m.
            (p'.update_location
              ≡ add32 p.update_location (block_length decrypt_block_size p.update_location end))
            × (p'.flash_location
                ≡ add32 p.flash_location (block_length decrypt_block_size p.update_location end))
            × Any m)
          Any
  unfolding install_block
  install_block-Triple p = Triple-bind (Triple-Any (act interface.feed)) (λ u.
      Triple-bind (Triple-Any (interface.update_read _ _)) (λ bytes.
        Triple-bind (Triple-Any (interface.decrypt_update _ _)) (λ x.
          Triple-bind (Triple-Any (erase_ahead interface executable_length p)) (λ n.
            Triple-bind (Triple-Any (interface.write _ _)) (λ u.
              Triple-bind (Triple-Any (act (interface.progress _ _)))
                (λ u. Triple-pure _ (λ m h. (refl, refl, tt))))))))

  abbrev Ends : Progress → Progress → Type 0
  Ends p p' =
      (p'.update_location ≡ end)
      × (p'.flash_location ≡ add32 p.flash_location (end - p.update_location))

  install_loop-Triple :
      (fuel : ℕ) (p : Progress)
      → end ≤ p.update_location + fuel
      → p.update_location ≤ end
      → p.flash_location < 2 ^ 32
      → Triple Any
          (install_loop interface fuel executable_length block_count end p)
          (λ p' m. Ends p p')
          Any
  unfolding install_loop
  install_loop-Triple zero p enough before fits = Triple-pure p (λ m h. omega arith)
  install_loop-Triple (suc fuel) p enough before fits =
      Triple-if (ltb p.update_location end)
        (λ t.
          let (pos, e, le) =
            block_length-pos p.update_location end (ltb→lt p.update_location end t) small in
          Triple-bind (install_block-Triple p) (λ p'. Triple_given_both (λ moved flashed.
            Triple_mono (λ m h. h) (λ r m h. omega (arith, h, moved, flashed, e, le)) (λ m h. h)
              (install_loop-Triple fuel p' (omega (arith, moved, pos, e))
                (omega (arith, moved, e, le)) (omega (arith, flashed))))))
        (λ t. Triple-pure p (λ m h. ground arith))

  -- If the loop of `fd_boot_install` starts inside an update that ends below 2 ^ 32, has as many
  -- rounds as bytes are left, and fails nowhere, it stops exactly at the end of the update, and
  -- has moved the flash location on by as many bytes, modulo 2 ^ 32.
  pub install_loop_finishes :
      (fuel : ℕ) (p p' : Progress) (m m' : Machine W)
      → end ≤ p.update_location + fuel
      → p.update_location ≤ end
      → p.flash_location < 2 ^ 32
      → install_loop interface fuel executable_length block_count end p m ≡ (ok p', m')
      → (p'.update_location ≡ end)
        × (p'.flash_location ≡ add32 p.flash_location (end - p.update_location))
  install_loop_finishes fuel p p' m m' enough before fits e =
      subst (Outcome (λ p' m. Ends p p') Any) e
        ((install_loop-Triple fuel p enough before fits).runs m tt)
