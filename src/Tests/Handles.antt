-- ===== src/Tests/Handles.antt =====
-- Handles of descriptors at concrete values.
use librapid.Prelude.{pos, ◌+◌, ◌≤◌, ◌≡◌, refl, [], ◌∷◌, arith}
use librapid.Handle.{handle, invalid_fd, ℤ-discrete, reset, release, close, move_assign}
use librapid.Handle.Owning.{held, count}
use librapid.Handle.Ledger.{Ledger, Uses, empty, unused, used, takes, assigns, swaps, ledger_lem}

abbrev Fds : Type 0
Fds = Ledger ℤ-discrete invalid_fd

-- 4 is taken and goes to the other owner, 5 is taken, and 4 comes back: 5 is freed.
abbrev holding_four : Fds
holding_four = record {
  left = handle (pos 4);
  right = handle invalid_fd;
  freed = [];
  given = [];
  taken = pos 4 ∷ [];
}

abbrev swapped : Fds
swapped = record holding_four { left = handle invalid_fd; right = handle (pos 4) }

abbrev holding_both : Fds
holding_both = record swapped { left = handle (pos 5); taken = pos 5 ∷ pos 4 ∷ [] }

abbrev moved : Fds
moved = record holding_four { freed = pos 5 ∷ []; taken = pos 5 ∷ pos 4 ∷ [] }

moved-Uses : Uses ℤ-discrete invalid_fd moved
unfolding reset release move_assign close
moved-Uses =
    used {s = holding_both}
      (used {s = swapped}
        (used {s = holding_four}
          (used {s = empty ℤ-discrete invalid_fd} unused
            (takes (pos 4) (λ e. ground arith) refl (ground arith)))
          (swaps (ground arith)))
        (takes (pos 5) (λ e. ground arith) (ground arith) (ground arith)))
      (assigns (ground arith))

ledger_lem_example :
    (count ℤ-discrete invalid_fd (pos 5) moved.freed ≤ 1)
    × (moved.left.value ≡ pos 5 → count ℤ-discrete invalid_fd (pos 5) moved.freed ≡ 0)
    × (moved.right.value ≡ pos 5 → count ℤ-discrete invalid_fd (pos 5) moved.freed ≡ 0)
    × (count ℤ-discrete invalid_fd (pos 5) moved.taken ≡ 1
        → held ℤ-discrete invalid_fd (pos 5) moved.left
            + held ℤ-discrete invalid_fd (pos 5) moved.right
            + count ℤ-discrete invalid_fd (pos 5) moved.freed
            + count ℤ-discrete invalid_fd (pos 5) moved.given
          ≡ 1)
ledger_lem_example = ledger_lem ℤ-discrete invalid_fd moved moved-Uses (pos 5) (λ e. ground arith)
