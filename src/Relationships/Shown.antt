-- ===== src/Relationships/Shown.antt =====
-- Which views a listing holds, whatever their order (`ListRelationships`, internal/platformdb/relationships.go).
use bsystem_integration_core.Base.{
  ℕ, inl, inr, ◌≡◌, refl, arith, Bool, true, false, ◌||◌, leb, Bool-cases, List, [], ◌∷◌, ◌++◌,
  keep, map, if◌then◌else◌, subst, sym, ap, ◌∙◌,
}
use bsystem_integration_core.Base.Text.{str_eq, str_eq_iff}
use bsystem_integration_core.Relationships.{
  Edge, Store, View, outgoing_view, incoming_view, outgoing_views, incoming_views, insert_view,
  sort_views, list_relationships,
}
use bsystem_integration_core.Relationships.Invariant.{AreSound, Holds}
use mathlib.Core.List.{Perm, perm_middle}
use mathlib.Core.List.Perm
use Prim.Native.String.{String}

-- Whether an edge touches an id.
abbrev pub touches : String → Edge → Bool
touches g e = str_eq e.from_id g || str_eq e.to_id g

-- An edge as the id at one of its ends is shown it.
abbrev pub shown_to : String → Edge → View
shown_to g e = if str_eq e.from_id g then outgoing_view e else incoming_view e

not_both : (g : String) (f t : String) → str_eq f t ≡ false → str_eq f g ≡ true → str_eq t g ≡ false
not_both g f t apart here = ground (arith, str_eq_iff f g, str_eq_iff f t, str_eq_iff t g)

insert_view-Perm : (v : View) (vs : List View) → Perm (insert_view v vs) (v ∷ vs)
unfolding insert_view
insert_view-Perm v [] = Perm.refl (v ∷ [])
insert_view-Perm v (u ∷ us) = elim (Bool-cases (leb v.created_at u.created_at)) [
  | inl first ↦ rw (first, insert_view) (Perm.refl (v ∷ u ∷ us))
  | inr later ↦
      rw (later, insert_view)
        (Perm.trans {l₂ = u ∷ v ∷ us} (Perm.cons u (insert_view-Perm v us)) (Perm.swap v u us))
]

sort_views-Perm : (vs : List View) → Perm (sort_views vs) vs
unfolding sort_views
sort_views-Perm [] = Perm.nil
sort_views-Perm (v ∷ vs) =
    Perm.trans {l₂ = v ∷ sort_views vs} (insert_view-Perm v (sort_views vs))
      (Perm.cons v (sort_views-Perm vs))

-- What is shown of the edges that touch an id.
abbrev shown : String → List Edge → List View
shown g es = map (shown_to g) (keep (touches g) es)

kept-shown :
    (g : String) (e : Edge) (es : List Edge) (b : Bool)
    → touches g e ≡ b
    → shown g (e ∷ es) ≡ (if b then shown_to g e ∷ shown g es else shown g es)
kept-shown g e es true h =
    ap
      (λ b.
        map (shown_to g) (elim b [ true ↦ e ∷ keep (touches g) es | false ↦ keep (touches g) es ]))
      h
kept-shown g e es false h =
    ap
      (λ b.
        map (shown_to g) (elim b [ true ↦ e ∷ keep (touches g) es | false ↦ keep (touches g) es ]))
      h

views-Perm :
    (entities : List String) (n : ℕ) (g : String) (es : List Edge)
    → AreSound entities n es
    → Perm (outgoing_views g es ++ incoming_views g es) (shown g es)
unfolding outgoing_views incoming_views
views-Perm entities n g [] h = Perm.nil
views-Perm entities n g (e ∷ es) (b, s, u, r) =
    let rest = views-Perm entities e.id g es r in
    elim (Bool-cases (str_eq e.from_id g)) [
      | inl here ↦
          let same : shown g (e ∷ es) ≡ outgoing_view e ∷ shown g es =
            kept-shown g e es true (ground (arith, here)) ∙ (rw here refl) in
          subst (λ vs. Perm (outgoing_views g (e ∷ es) ++ incoming_views g (e ∷ es)) vs) (sym same)
            (rw (here, not_both g e.from_id e.to_id s.apart here)
              (Perm.cons (outgoing_view e) rest))
      | inr away ↦ elim (Bool-cases (str_eq e.to_id g)) [
        | inl there ↦
            let same : shown g (e ∷ es) ≡ incoming_view e ∷ shown g es =
              kept-shown g e es true (ground (arith, there)) ∙ (rw away refl) in
            subst (λ vs. Perm (outgoing_views g (e ∷ es) ++ incoming_views g (e ∷ es)) vs)
              (sym same)
              (rw (away, there)
                (Perm.trans (perm_middle (outgoing_views g es) (incoming_views g es))
                  (Perm.cons (incoming_view e) rest)))
        | inr elsewhere ↦
            subst (λ vs. Perm (outgoing_views g (e ∷ es) ++ incoming_views g (e ∷ es)) vs)
              (sym (kept-shown g e es false (ground (arith, away, elsewhere))))
              (rw (away, elsewhere) rest)
      ]
    ]

-- A listing is the edges that touch the id, each once, in some order, each as its end is shown it.
pub list_relationships-Perm :
    (s : Store) (g : String)
    → Holds s
    → Perm (list_relationships s g) (map (shown_to g) (keep (touches g) s.edges))
unfolding list_relationships
list_relationships-Perm s g h =
    Perm.trans (sort_views-Perm (outgoing_views g s.edges ++ incoming_views g s.edges))
      (views-Perm s.entities s.sequence g s.edges h)
