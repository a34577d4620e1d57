-- ===== src/Store/Repair/Lists.antt =====
-- The check of the lists of blocks.
use mathlib.Core.List.{append-nil, append_assoc}
use tp_2021_so_fin.Base.{
  ℕ, ◌≤◌, ◌≡◌, refl, ap, ◌∙◌, Bool, true, false, ◌||◌, List, [], ◌∷◌, ◌++◌, some, if◌then◌else◌,
  Bool-cases, inl, inr, arith,
}
use tp_2021_so_fin.Store.State.{File, Metadata, Fs}
use tp_2021_so_fin.Store.Bitacora.Appended.{same_file_refl}
use tp_2021_so_fin.Store.Repair.{invalido, lista_valida, validacion_es_valida_lista_recursos}

-- a block that is no greater than the number of blocks, and whose bit is set
abbrev pub EsValido : Fs → ℕ → Type 0
EsValido fs b = (b ≤ fs.cantidad_bloques) × (fs.bitmap b ≡ true)

-- The blocks of a list that are valid, and no others, in their order, each as often as it stands
-- there.
pub data Quedan (fs : Fs) : List ℕ → List ℕ → Type 0 where
  nada : Quedan fs [] []
  queda : {b : ℕ} {bs cs : List ℕ} → EsValido fs b → Quedan fs bs cs → Quedan fs (b ∷ bs) (b ∷ cs)
  sale : {b : ℕ} {bs cs : List ℕ} → ¬ (EsValido fs b) → Quedan fs bs cs → Quedan fs (b ∷ bs) cs

abbrev validos : Fs → List ℕ → List ℕ
validos fs [] = []
validos fs (b ∷ bs) = if invalido fs b then validos fs bs else b ∷ validos fs bs

validos-Quedan : (fs : Fs) (bs : List ℕ) → Quedan fs bs (validos fs bs)
validos-Quedan fs [] = nada
validos-Quedan fs (b ∷ bs) = elim (Bool-cases (invalido fs b)) [
  | inl bad ↦ rw bad (sale (λ v. absurd (ground (arith, bad, v.0, v.1))) (validos-Quedan fs bs))
  | inr good ↦ rw good (queda (ground (arith, good), ground (arith, good)) (validos-Quedan fs bs))
]

abbrev hay_invalido : Fs → List ℕ → Bool
hay_invalido fs [] = false
hay_invalido fs (b ∷ bs) = invalido fs b || hay_invalido fs bs

lista_valida-nil :
    (fs : Fs) (temporal : List ℕ) (error : Bool)
    → lista_valida fs [] temporal error ≡ (temporal, error)
unfolding lista_valida
lista_valida-nil fs temporal error = refl

lista_valida-bad :
    (fs : Fs) (b : ℕ) (bs temporal : List ℕ) (error : Bool)
    → invalido fs b ≡ true
    → lista_valida fs (b ∷ bs) temporal error ≡ lista_valida fs bs temporal true
unfolding lista_valida
lista_valida-bad fs b bs temporal error h = ground arith

lista_valida-good :
    (fs : Fs) (b : ℕ) (bs temporal : List ℕ) (error : Bool)
    → invalido fs b ≡ false
    → lista_valida fs (b ∷ bs) temporal error ≡ lista_valida fs bs (temporal ++ b ∷ []) error
unfolding lista_valida
lista_valida-good fs b bs temporal error h = ground arith

lista_valida-eq :
    (fs : Fs) (bs temporal : List ℕ) (error : Bool)
    → lista_valida fs bs temporal error ≡ (temporal ++ validos fs bs, error || hay_invalido fs bs)
lista_valida-eq fs [] temporal error =
    let e : error || false ≡ error = ground arith in
    let u : lista_valida fs [] temporal error ≡ (temporal, error) =
      lista_valida-nil fs temporal error in
    rw (e, u, append-nil temporal) refl
lista_valida-eq fs (b ∷ bs) temporal error = elim (Bool-cases (invalido fs b)) [
  | inl bad ↦
      let z = lista_valida-eq fs bs temporal true in
      let h : error || true ≡ true = ground arith in
      lista_valida-bad fs b bs temporal error bad ∙ z ∙ rw (bad, h) refl
  | inr good ↦
      let z = lista_valida-eq fs bs (temporal ++ b ∷ []) error in
      let a = append_assoc temporal (b ∷ []) (validos fs bs) in
      lista_valida-good fs b bs temporal error good ∙ z ∙ rw (good, a) refl
]

validos-same : (fs : Fs) (bs : List ℕ) → hay_invalido fs bs ≡ false → validos fs bs ≡ bs
validos-same fs [] h = refl
validos-same fs (b ∷ bs) h = elim (Bool-cases (invalido fs b)) [
  | inl bad ↦ absurd (ground arith)
  | inr good ↦ rw good (ap (λ xs. b ∷ xs) (validos-same fs bs (ground arith)))
]

validacion-validos :
    (fs : Fs) (f : File) (m : Metadata)
    → fs.files f ≡ some m
    → (validacion_es_valida_lista_recursos f fs).files f
      ≡ some (record m { blocks = validos fs m.blocks })
unfolding validacion_es_valida_lista_recursos
validacion-validos fs f m found = elim (Bool-cases (hay_invalido fs m.blocks)) [
  | inl some_bad ↦
      let r = same_file_refl f in
      rw
        (
          validacion_es_valida_lista_recursos,
          found,
          lista_valida-eq fs m.blocks [] false,
          some_bad,
          r,
        )
        refl
  | inr all_good ↦
      let v = validos-same fs m.blocks all_good in
      rw
        (validacion_es_valida_lista_recursos, found, lista_valida-eq fs m.blocks [] false, all_good)
        (found ∙ rw v refl)
]

-- In the list of a file that is there, those blocks stay that are no greater than the number of
-- blocks and whose bit is set, in their order, and no others; no other value of the file changes. The
-- block whose number is the number of blocks stays too, if its bit is set.
pub validacion_es_valida_lista_recursos-validos :
    (fs : Fs) (f : File) (m : Metadata)
    → fs.files f ≡ some m
    → (cs : List ℕ) × ((validacion_es_valida_lista_recursos f fs).files f
        ≡ some (record m { blocks = cs }))
      × Quedan fs m.blocks cs
validacion_es_valida_lista_recursos-validos fs f m found =
    (validos fs m.blocks, validacion-validos fs f m found, validos-Quedan fs m.blocks)
