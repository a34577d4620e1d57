-- ===== src/Segmentation/Patota/Entries.antt =====
-- What the segments of a table are for, whatever their addresses: `memory_compaction` and the search
-- for space.
use tp_2021_so_fin.Base.{
  ℕ, ◌+◌, ◌-◌, ◌%◌, ◌<◌, ◌≡◌, refl, ap, ◌∙◌, List, [], ◌∷◌, ◌++◌, Option, none, some, arith, ◌==◌,
  true, false, Bool-cases, ==→≡, inl, inr,
}
use tp_2021_so_fin.Base.Bytes.{Bytes, u32}
use tp_2021_so_fin.Base.Counts.{count}
use tp_2021_so_fin.Commons.{Commons}
use tp_2021_so_fin.Segmentation.State.{Segment, Ram, size_of, update}
use tp_2021_so_fin.Segmentation.Compaction.{
  Slide, slide_one, slide, gather, slid, memory_compaction, find_space, allocate, use_found, retry,
}
use tp_2021_so_fin.Segmentation.Patota.{Entry}

abbrev pub entry_of : Segment → Entry
entry_of s = record { id = s.id; type = s.type; size = size_of s }

-- the segments of a table, in order
abbrev pub entries : (ℕ → Segment) → List ℕ → List Entry
entries heap [] = []
entries heap (p ∷ ps) = entry_of (heap p) ∷ entries heap ps

size-fresh : (b k : ℕ) → b + k < u32 → ((b + k) % u32 + u32 - b) % u32 ≡ k
size-fresh b k h = omega arith

pub entry_of-fresh :
    (n b : ℕ) (e : Entry)
    → b + e.size < u32
    → entry_of (record {
      id = e.id;
      type = e.type;
      nro_segmento = n;
      base_addr = b;
      limit = (b + e.size) % u32;
    })
      ≡ e
entry_of-fresh n b e h = ap (λ k. con_tamanio e k) (size-fresh b e.size h)
  where
    con_tamanio : Entry → ℕ → Entry
    con_tamanio e k = record { id = e.id; type = e.type; size = k }

size-moved : (o : ℕ) (s : Segment) → (o + size_of s + u32 - o) % u32 ≡ size_of s
size-moved o s = omega arith

entry-slide_one :
    (memory : Bytes) (p : ℕ) (s : Slide) (q : ℕ)
    → entry_of ((slide_one memory p s).heap q) ≡ entry_of (s.heap q)
unfolding slide_one
entry-slide_one memory p s q = elim (Bool-cases (p == q)) [
  | inl here ↦
      rw (here, size-moved s.offset (s.heap p)) (ap (λ r. entry_of (s.heap r)) (==→≡ p q here))
  | inr there ↦ rw there refl
]

entry-slide :
    (memory : Bytes) (ps : List ℕ) (s : Slide) (q : ℕ)
    → entry_of ((slide memory ps s).heap q) ≡ entry_of (s.heap q)
unfolding slide
entry-slide memory [] s q = refl
entry-slide memory (p ∷ ps) s q =
    entry-slide memory ps (slide_one memory p s) q ∙ entry-slide_one memory p s q

module _ (c : Commons) where
  entry-memory_compaction :
      (r : Ram) (q : ℕ) → entry_of ((memory_compaction c r).heap q) ≡ entry_of (r.heap q)
  unfolding memory_compaction slid
  entry-memory_compaction r q =
      entry-slide r.memory (gather c r.heap r.table_collection [])
        (record { offset = 0; aux_memory = c.malloc r.mem_size; heap = r.heap }) q

  pub entry-allocate :
      (r : Ram) (k q : ℕ) → entry_of ((allocate c r k).1.heap q) ≡ entry_of (r.heap q)
  unfolding allocate
  entry-allocate r k q = reintentada (find_space c r k)
    where
      reintentada :
          (f : Option ℕ × List Segment)
          → entry_of ((retry c k (use_found c r f)).1.heap q) ≡ entry_of (r.heap q)
      reintentada (some a, libres) = refl
      reintentada (none, libres) =
          entry-memory_compaction (record r { segmentos_libres = libres }) q

pub entries-same :
    (heap heap' : ℕ → Segment) (ps : List ℕ)
    → ((q : ℕ) → entry_of (heap' q) ≡ entry_of (heap q))
    → entries heap' ps ≡ entries heap ps
entries-same heap heap' [] h = refl
entries-same heap heap' (p ∷ ps) h = rw (h p, entries-same heap heap' ps h) refl

-- a new segment at the end, whose pointer is in the table nowhere
pub entries-pushed :
    (heap : ℕ → Segment) (p : ℕ) (s : Segment) (ps : List ℕ)
    → count p ps ≡ 0
    → entries (update heap p s) (ps ++ p ∷ []) ≡ entries heap ps ++ entry_of s ∷ []
entries-pushed heap p s [] z = let h : (p == p) ≡ true = ground arith in rw h refl
entries-pushed heap p s (q ∷ ps) z =
    let h : (p == q) ≡ false = ground arith in rw (h, entries-pushed heap p s ps (omega arith)) refl
