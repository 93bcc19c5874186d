-- ===== src/Chaos/Pods.antt =====
-- services/chaos-controller/app/cluster.py: the list of a service's pods when one is replaced.
use microservices_project.Prelude.{
  ◌≡◌, refl, ap, ◌∙◌, true, false, ◌||◌, List, [], ◌∷◌, ◌++◌, map, arith, ◌==◌, if◌then◌else◌, elem,
  nat_eq,
}
use microservices_project.Prelude.{are_distinct}
use microservices_project.Prelude.Text.{Text, text_eq}
use microservices_project.Chaos.Cluster.{running, PodState, edit_pod, remove_pod}

pub elem-append : (x : Text) (xs ys : List Text) → elem x (xs ++ ys) ≡ elem x xs || elem x ys
elem-append x [] ys = refl
elem-append x (a ∷ xs) ys = ground (arith, elem-append x xs ys)

pub distinct_append :
    (xs : List Text) (y : Text)
    → are_distinct xs ≡ true
    → elem y xs ≡ false
    → are_distinct (xs ++ y ∷ []) ≡ true
distinct_append [] y d e = refl
distinct_append (x ∷ xs) y d e = ground (
  arith,
  distinct_append xs y,
  elem-append x xs (y ∷ []),
  text_eq.beq_iff x y,
  text_eq.beq_iff y x,
)

module _ {F : Type 0} where
  abbrev pub names : List (PodState F) → List Text
  names ps = map (λ p. p.name) ps

  abbrev pub KeepsName : (PodState F → PodState F) → Type 0
  KeepsName f = (p : PodState F) → (f p).name ≡ p.name

  -- A pod runs and is ready.
  abbrev pub IsReady : PodState F → Type 0
  IsReady p = p.phase ≡ running × p.ready ≡ true

  edit_absent :
      (x : Text) (f : PodState F → PodState F) (ps : List (PodState F))
      → elem x (names ps) ≡ false
      → edit_pod x f ps ≡ ps
  edit_absent x f [] h = refl
  edit_absent x f (p ∷ ps) h =
      ground (arith, edit_absent x f ps, text_eq.beq_iff x p.name, text_eq.beq_iff p.name x)

  edit_append :
      (x : Text) (f : PodState F → PodState F) (ps qs : List (PodState F))
      → edit_pod x f (ps ++ qs) ≡ edit_pod x f ps ++ edit_pod x f qs
  edit_append x f [] qs = refl
  edit_append x f (p ∷ ps) qs =
      ap (λ l. (if p.name == x then f p else p) ∷ l) (edit_append x f ps qs)

  remove_append :
      (x : Text) (ps qs : List (PodState F))
      → remove_pod x (ps ++ qs) ≡ remove_pod x ps ++ remove_pod x qs
  remove_append x [] qs = refl
  remove_append x (p ∷ ps) qs = ground (arith, remove_append x ps qs)

  remove_absent :
      (x : Text) (ps : List (PodState F)) → elem x (names ps) ≡ false → remove_pod x ps ≡ ps
  remove_absent x [] h = refl
  remove_absent x (p ∷ ps) h =
      ground (arith, remove_absent x ps, text_eq.beq_iff x p.name, text_eq.beq_iff p.name x)

  remove-edit :
      (x : Text) (f : PodState F → PodState F) (ps : List (PodState F))
      → KeepsName f
      → remove_pod x (edit_pod x f ps) ≡ remove_pod x ps
  remove-edit x f [] keeps = refl
  remove-edit x f (p ∷ ps) keeps =
      ground (arith, remove-edit x f ps keeps, keeps p, text_eq.beq_iff p.name x)

  names-edit :
      (x : Text) (f : PodState F → PodState F) (ps : List (PodState F))
      → KeepsName f
      → names (edit_pod x f ps) ≡ names ps
  names-edit x f [] keeps = refl
  names-edit x f (p ∷ ps) keeps = ground (arith, names-edit x f ps keeps, keeps p)

  pub edit-edit :
      (x : Text) (f g : PodState F → PodState F) (ps : List (PodState F))
      → KeepsName f
      → edit_pod x g (edit_pod x f ps) ≡ edit_pod x (λ p. g (f p)) ps
  edit-edit x f g [] keeps = refl
  edit-edit x f g (p ∷ ps) keeps =
      ground (arith, edit-edit x f g ps keeps, keeps p, text_eq.beq_iff p.name x)

  edit_one : (f : PodState F → PodState F) (q : PodState F) → edit_pod q.name f (q ∷ []) ≡ f q ∷ []
  edit_one f q = ground (arith, text_eq.beq_iff q.name q.name)

  remove_other :
      (x : Text) (q : PodState F) → (q.name == x) ≡ false → remove_pod x (q ∷ []) ≡ q ∷ []
  remove_other x q h = ground arith

  remove_first :
      (t : PodState F) (rest : List (PodState F))
      → elem t.name (names rest) ≡ false
      → remove_pod t.name (t ∷ rest) ≡ rest
  remove_first t rest h = ground (arith, remove_absent t.name rest h, text_eq.beq_iff t.name t.name)

  edit_new :
      (f : PodState F → PodState F) (q : PodState F) (ps : List (PodState F))
      → elem q.name (names ps) ≡ false
      → edit_pod q.name f (ps ++ q ∷ []) ≡ ps ++ f q ∷ []
  edit_new f q ps fresh =
      edit_append q.name f ps (q ∷ [])
      ∙ ap (λ l. l ++ edit_pod q.name f (q ∷ [])) (edit_absent q.name f ps fresh)
      ∙ ap (λ l. ps ++ l) (edit_one f q)

  -- The first pod goes, and the new one comes up at the end.
  pub replaced :
      (t q : PodState F) (f g : PodState F → PodState F) (rest : List (PodState F))
      → KeepsName f
      → KeepsName g
      → elem t.name (names rest) ≡ false
      → elem q.name (names (t ∷ rest)) ≡ false
      → remove_pod t.name (edit_pod q.name g (edit_pod t.name f (t ∷ rest) ++ q ∷ []))
        ≡ rest ++ g q ∷ []
  replaced t q f g rest kf kg alone fresh =
      let edited = edit_pod t.name f (t ∷ rest) in
      let unknown = ap (elem q.name) (names-edit t.name f (t ∷ rest) kf) ∙ fresh in
      let apart : ((g q).name == t.name) ≡ false =
        ground (arith, kg q, text_eq.beq_iff (g q).name t.name, text_eq.beq_iff q.name t.name) in
      ap (remove_pod t.name) (edit_new g q edited unknown)
      ∙ remove_append t.name edited (g q ∷ [])
      ∙ ap (λ l. l ++ remove_pod t.name (g q ∷ [])) (remove-edit t.name f (t ∷ rest) kf)
      ∙ ap (λ l. l ++ remove_pod t.name (g q ∷ [])) (remove_first t rest alone)
      ∙ ap (λ l. rest ++ l) (remove_other t.name (g q) apart)

  pub names-append : (ps qs : List (PodState F)) → names (ps ++ qs) ≡ names ps ++ names qs
  names-append [] qs = refl
  names-append (p ∷ ps) qs = ap (λ l. p.name ∷ l) (names-append ps qs)
