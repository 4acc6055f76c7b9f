-- ===== src/Heap/Collect.antt =====
-- memory/heap.py: which objects a garbage collection frees, and the tokens it reports.
use hollow_agent_os.Base.{
  ℕ, ◌+◌, ◌≡◌, refl, sym, ◌∙◌, ap, subst, String, ◌==◌, eq_iff, Bool, false, Option, none, some,
  List, [], ◌∷◌, arith, inl, inr, if◌then◌else◌, Bool-cases, Option-cases, contains,
}
use hollow_agent_os.Dict
use hollow_agent_os.Dict.{Dict, get-remove}
use hollow_agent_os.Dict.Unique.{IsUnique, remove-IsUnique, remove-fresh}
use hollow_agent_os.Heap.Record.{Heap, MemoryObject, is_past, save}
use hollow_agent_os.Heap.{gc, collect, save_if, unlink, expired_keys}
use hollow_agent_os.Heap.Counted.{unlink-objects}

-- The object of a lookup is past its time to live.
abbrev pub past : ℕ → Option MemoryObject → Bool
past now none = false
past now (some obj) = is_past now obj.ttl

-- The tokens of all objects.
abbrev pub all_tokens : Dict MemoryObject → ℕ
all_tokens [] = 0
all_tokens ((k, obj) ∷ d) = obj.token_count + all_tokens d

abbrev remove_all : List String → Dict MemoryObject → Dict MemoryObject
remove_all [] d = d
remove_all (k ∷ ks) d = remove_all ks (Dict.remove k d)

get-remove_all :
    (ks : List String) (j : String) (d : Dict MemoryObject)
    → Dict.get j (remove_all ks d) ≡ (if contains j ks then none else Dict.get j d)
unfolding contains
get-remove_all [] j d = refl
get-remove_all (k ∷ ks) j d =
    ground (arith, get-remove_all ks j (Dict.remove k d), get-remove k j d)

contains-expired_keys :
    (now : ℕ) (j : String) (d : Dict MemoryObject)
    → IsUnique d
    → contains j (expired_keys now d) ≡ past now (Dict.get j d)
unfolding contains expired_keys Dict.get Dict.has_key
contains-expired_keys now j [] u = refl
contains-expired_keys now j ((k, obj) ∷ d) (fresh, u) =
    let rest = contains-expired_keys now j d u in
    elim (Bool-cases (k == j)) [
      | inr q ↦ elim (Bool-cases (is_past now obj.ttl)) [
        | inl p ↦ rw (p, q) rest
        | inr p ↦ rw (p, q) rest
      ]
      | inl q ↦ elim (Bool-cases (is_past now obj.ttl)) [
        | inl p ↦ rw (p, q) (sym p)
        | inr p ↦
            let none_left : Dict.get j d ≡ none =
              subst (λ i. Dict.get i d ≡ none) ((eq_iff k j).0 q) (ground arith) in
            rw (p, q) (rest ∙ rw none_left (sym p))
      ]
    ]

collect-objects :
    (ks : List String) (n : ℕ) (h : Heap) → (collect ks n h).1.objects ≡ remove_all ks h.objects
unfolding collect Dict.has_key
collect-objects [] n h = refl
collect-objects (k ∷ ks) n h = elim (Option-cases (Dict.get k h.objects)) [
  | inl e ↦
      rw (e, collect)
        (collect-objects ks n h
          ∙ ap (remove_all ks) (sym (remove-fresh k h.objects (ground arith))))
  | inr (obj, e) ↦
      rw (e, collect)
        (collect-objects ks _ _
          ∙ ap (remove_all ks)
              (unlink-objects obj.disk_path (record h { objects = Dict.remove k h.objects })))
]

remove-all_tokens :
    (k : String) (obj : MemoryObject) (d : Dict MemoryObject)
    → IsUnique d
    → Dict.get k d ≡ some obj
    → obj.token_count + all_tokens (Dict.remove k d) ≡ all_tokens d
unfolding Dict.get Dict.remove Dict.has_key
remove-all_tokens k obj [] u e = cc
remove-all_tokens k obj ((i, o) ∷ d) (fresh, u) e = elim (Bool-cases (i == k)) [
  | inl q ↦
      let gone : Dict.remove k d ≡ d =
        remove-fresh k d (subst (λ j. Dict.has_key j d ≡ false) ((eq_iff i k).0 q) fresh) in
      let same : o ≡ obj = ground arith in
      rw (q, Dict.remove)
        (omega (arith, ap (λ (x : MemoryObject). x.token_count) same, ap all_tokens gone))
  | inr q ↦ rw (q, Dict.remove) (omega (arith, remove-all_tokens k obj d u (ground arith)))
]

collect-tokens :
    (ks : List String) (n : ℕ) (h : Heap)
    → IsUnique h.objects
    → (collect ks n h).0 + all_tokens (collect ks n h).1.objects ≡ n + all_tokens h.objects
unfolding collect
collect-tokens [] n h u = refl
collect-tokens (k ∷ ks) n h u = elim (Option-cases (Dict.get k h.objects)) [
  | inl e ↦ rw (e, collect) (collect-tokens ks n h u)
  | inr (obj, e) ↦
      let h1 = unlink obj.disk_path (record h { objects = Dict.remove k h.objects }) in
      let same : h1.objects ≡ Dict.remove k h.objects = unlink-objects obj.disk_path _ in
      rw (e, collect)
        (omega (
          arith,
          collect-tokens ks (n + obj.token_count) h1
              (subst IsUnique (sym same) (remove-IsUnique k h.objects u)),
          ap all_tokens same,
          remove-all_tokens k obj h.objects u e,
        ))
]

save_if-objects : (ks : List String) (h : Heap) → (save_if ks h).objects ≡ h.objects
unfolding save_if save
save_if-objects [] h = refl
save_if-objects (k ∷ ks) h = refl

gc-objects :
    (h : Heap) (now : ℕ)
    → (gc h now).1.objects ≡ (collect (expired_keys now h.objects) 0 h).1.objects
unfolding gc
gc-objects h now = save_if-objects (expired_keys now h.objects) _

-- A collection removes exactly the objects whose time to live has passed, and leaves every other
-- object as it was.
pub gc-get :
    (h : Heap) (now : ℕ) (key : String)
    → IsUnique h.objects
    → Dict.get key (gc h now).1.objects
      ≡ (if past now (Dict.get key h.objects) then none else Dict.get key h.objects)
gc-get h now key u =
    ap (Dict.get key) (gc-objects h now ∙ collect-objects (expired_keys now h.objects) 0 h)
    ∙ get-remove_all (expired_keys now h.objects) key h.objects
    ∙ ap (λ b. if b then none else Dict.get key h.objects)
        (contains-expired_keys now key h.objects u)

gc-sum :
    (h : Heap) (now : ℕ)
    → IsUnique h.objects
    → (gc h now).0.1 + all_tokens (collect (expired_keys now h.objects) 0 h).1.objects
      ≡ all_tokens h.objects
unfolding gc
gc-sum h now u = omega (arith, collect-tokens (expired_keys now h.objects) 0 h u)

gc-keys : (h : Heap) (now : ℕ) → (gc h now).0.0 ≡ expired_keys now h.objects
unfolding gc
gc-keys h now = refl

-- The freed tokens that a collection reports and those of the objects it leaves add up to the tokens
-- before it, and the freed keys are those whose object was past its time to live.
pub gc-tokens :
    (h : Heap) (now : ℕ) (key : String)
    → IsUnique h.objects
    → ((gc h now).0.1 + all_tokens (gc h now).1.objects ≡ all_tokens h.objects)
      × (contains key (gc h now).0.0 ≡ past now (Dict.get key h.objects))
gc-tokens h now key u = (
  ap (λ d. (gc h now).0.1 + all_tokens d) (gc-objects h now) ∙ gc-sum h now u,
  ap (contains key) (gc-keys h now) ∙ contains-expired_keys now key h.objects u,
)
