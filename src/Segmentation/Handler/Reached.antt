-- ===== src/Segmentation/Handler/Reached.antt =====
-- The states that the process goes through, one message after the other.
use tp_2021_so_fin.Base.{ℕ, ◌<◌, ◌≡◌, refl, Bool, [], some, arith, subst}
use tp_2021_so_fin.Base.Bytes.{Bytes, get32}
use tp_2021_so_fin.Commons.{Commons}
use tp_2021_so_fin.Segmentation.State.{Ram}
use tp_2021_so_fin.Segmentation.Invariant.{IsSound, nothing}
use tp_2021_so_fin.Segmentation.Patota.{Reply}
use tp_2021_so_fin.Segmentation.Patota.Pushed.{IsStored}
use tp_2021_so_fin.Segmentation.Handler.{segmentation_handler, start}
use tp_2021_so_fin.Segmentation.Handler.Served.{Keeps, handler-Keeps}

-- The states after some messages. An INICIAR_PATOTA among them has a pid without segments.
pub data Reached (c : Commons) (mem_size : ℕ) (is_best_fit : Bool) : Ram → Type 0 where
  started : Reached c mem_size is_best_fit (start c mem_size is_best_fit)
  served :
      {r r' : Ram}
      → Reached c mem_size is_best_fit r
      → (error : Bool) (opcode : ℕ) (buffer : Bytes) (reply : Reply)
      → (opcode ≡ 500 → IsStored r.table_collection (get32 buffer 0) [])
      → segmentation_handler c error r opcode buffer ≡ some (r', reply)
      → Reached c mem_size is_best_fit r'

module _ (c : Commons) (mem_size : ℕ) (is_best_fit : Bool) (in_int : mem_size < 2147483648) where
  start-IsSound : IsSound nothing (start c mem_size is_best_fit)
  unfolding start
  start-IsSound = record {
    small = in_int;
    tiled = record { covers = λ a. ground arith; total = omega arith; sound = ground arith };
    once = λ p. omega arith;
    fresh = λ p h. refl;
    numbered = refl;
  }

  -- From the start on a memory whose size an int holds, whatever messages are served, of which each
  -- INICIAR_PATOTA has a pid that has no segments, the state is sound: every address of the memory
  -- is in exactly one segment, free or of a table, and no segment is in two tables or twice in one.
  pub Reached-IsSound : (r : Ram) → Reached c mem_size is_best_fit r → IsSound nothing r
  Reached-IsSound r started = start-IsSound
  Reached-IsSound r' (served {r} h error opcode buffer reply new e) =
      subst Keeps e (handler-Keeps r (Reached-IsSound r h) buffer c error opcode new)
