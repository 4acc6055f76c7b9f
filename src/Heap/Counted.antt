-- ===== src/Heap/Counted.antt =====
-- memory/heap.py: objects in memory that carry the token count of their content, which each operation
-- on an object keeps.
use hollow_agent_os.Base.{
  ℕ, ◌≡◌, refl, sym, subst, String, Bool, true, false, Option, none, some, List, [], ◌∷◌, inl, inr,
  Bool-cases, Option-cases, if_ind,
}
use hollow_agent_os.Dict
use hollow_agent_os.Dict.{Dict}
use hollow_agent_os.Dict.Unique.{
  IsUnique, Every, put-IsUnique, remove-IsUnique, put-Every, remove-Every, get-Every,
}
use hollow_agent_os.Heap.Record.{
  Host, Heap, MemoryObject, count_tokens, summarize, original_path, is_past, save, swap_path,
}
use hollow_agent_os.Heap.{
  read, free, gc, collect, save_if, unlink, set_object, write_file, read_file, restored,
  restore_and_touch, touch, expired_keys,
}
use hollow_agent_os.Heap.Swapping.{
  compress, finish_compress, swap_out, swap_in, swapped_object, compressed_object,
}

-- The count of an object in memory is that of its content.
abbrev pub Recounts : Host → Bool → ℕ → String → Type 0
Recounts host true n content = Unit
Recounts host false n content = n ≡ count_tokens host content

abbrev pub Counted : Host → MemoryObject → Type 0
Counted host o = Recounts host o.swapped o.token_count o.content

-- Each key is bound once, and each object in memory is counted.
abbrev pub IsCounted : Host → Heap → Type 0
IsCounted host h = IsUnique h.objects × Every (Counted host) h.objects

recount :
    (host : Host) (b : Bool) (content : String)
    → Recounts host b (count_tokens host content) content
recount host true content = tt
recount host false content = refl

pub unlink-objects : (path : Option String) (h : Heap) → (unlink path h).objects ≡ h.objects
unfolding unlink
unlink-objects none h = refl
unlink-objects (some path) h = refl

module _ (host : Host) where
  put-IsCounted :
      (key : String) (obj : MemoryObject) (h : Heap)
      → Counted host obj
      → IsCounted host h
      → IsUnique (Dict.put key obj h.objects) × Every (Counted host) (Dict.put key obj h.objects)
  put-IsCounted key obj h c (u, all) =
      (put-IsUnique key obj h.objects u, put-Every (Counted host) key obj h.objects c all)

  remove-IsCounted :
      (key : String) (h : Heap)
      → IsCounted host h
      → IsUnique (Dict.remove key h.objects) × Every (Counted host) (Dict.remove key h.objects)
  remove-IsCounted key h (u, all) =
      (remove-IsUnique key h.objects u, remove-Every (Counted host) key h.objects all)

  pub set_object-IsCounted :
      (key : String) (obj : MemoryObject) (h : Heap)
      → Counted host obj
      → IsCounted host h
      → IsCounted host (set_object key obj h)
  unfolding set_object save
  set_object-IsCounted = put-IsCounted

  touch-IsCounted :
      (key : String) (at : ℕ) (obj : MemoryObject) (h : Heap)
      → Counted host obj
      → IsCounted host h
      → IsCounted host (touch key at obj h).1
  unfolding touch
  touch-IsCounted key at obj h c i = put-IsCounted key (record obj { last_read_at = at }) h c i

  -- The branch of `read` for a swapped object.
  restored-IsCounted :
      (h : Heap) (key : String) (at : ℕ) (obj : MemoryObject)
      → IsCounted host h
      → IsCounted host (restore_and_touch host key at obj h).1
  unfolding restore_and_touch restored
  restored-IsCounted h key at obj i = elim (Option-cases (read_file obj.disk_path h)) [
    | inl f ↦ rw (f, restore_and_touch) i
    | inr (content, f) ↦
        rw (f, restore_and_touch)
          (touch-IsCounted key at (restored host content obj)
            (set_object key (restored host content obj) h) refl
            (set_object-IsCounted key (restored host content obj) h refl i))
  ]

  pub read-IsCounted :
      (h : Heap) (key : String) (now at : ℕ)
      → IsCounted host h
      → IsCounted host (read host h key now at).1
  unfolding read save restored
  read-IsCounted h key now at i = elim (Option-cases (Dict.get key h.objects)) [
    | inl e ↦ rw (e, read) i
    | inr (obj, e) ↦ elim (Bool-cases (is_past now obj.ttl)) [
      | inl past ↦ rw (e, past, read) (remove-IsCounted key h i)
      | inr live ↦
          rw (e, live, read)
            (if_ind (λ (s : Option String × Heap). IsCounted host s.1) obj.swapped _ _
              (λ out. restored-IsCounted h key at obj i)
              (λ here.
                touch-IsCounted key at obj h (get-Every (Counted host) key obj h.objects i.1 e) i))
    ]
  ]

  unlink-IsCounted :
      (path : Option String) (h : Heap) → IsCounted host h → IsCounted host (unlink path h)
  unlink-IsCounted path h i =
      subst (λ d. IsUnique d × Every (Counted host) d) (sym (unlink-objects path h)) i

  pub free-IsCounted : (h : Heap) (key : String) → IsCounted host h → IsCounted host (free h key).1
  unfolding free save
  free-IsCounted h key i = elim (Option-cases (Dict.get key h.objects)) [
    | inl e ↦ rw (e, free) i
    | inr (obj, e) ↦
        rw (e, free)
          (unlink-IsCounted obj.disk_path (record h { objects = Dict.remove key h.objects })
            (remove-IsCounted key h i))
  ]

  collect-IsCounted :
      (ks : List String) (n : ℕ) (h : Heap) → IsCounted host h → IsCounted host (collect ks n h).1
  unfolding collect
  collect-IsCounted [] n h i = i
  collect-IsCounted (k ∷ ks) n h i = elim (Option-cases (Dict.get k h.objects)) [
    | inl e ↦ rw (e, collect) (collect-IsCounted ks n h i)
    | inr (obj, e) ↦
        rw (e, collect)
          (collect-IsCounted ks _ _ (
            unlink-IsCounted obj.disk_path (record h { objects = Dict.remove k h.objects })
              (remove-IsCounted k h i)))
  ]

  save_if-IsCounted :
      (ks : List String) (h : Heap) → IsCounted host h → IsCounted host (save_if ks h)
  unfolding save_if save
  save_if-IsCounted [] h i = i
  save_if-IsCounted (k ∷ ks) h i = i

  pub gc-IsCounted : (h : Heap) (now : ℕ) → IsCounted host h → IsCounted host (gc h now).1
  unfolding gc
  gc-IsCounted h now i =
      let ks = expired_keys now h.objects in
      save_if-IsCounted ks (collect ks 0 h).1 (collect-IsCounted ks 0 h i)

  finish_compress-IsCounted :
      (h : Heap) (key content : String) (tokens : ℕ)
      → IsCounted host h
      → IsCounted host (finish_compress host h key content tokens).1
  unfolding finish_compress write_file compressed_object
  finish_compress-IsCounted h key content tokens i =
      let h1 = write_file (original_path h key) content h in
      elim (Option-cases (Dict.get key h1.objects)) [
        | inl e ↦ rw (e, finish_compress) i
        | inr (obj, e) ↦
            rw (e, finish_compress)
              (set_object-IsCounted key
                (compressed_object host (summarize host content) (original_path h key) obj) h1
                (recount host obj.swapped (summarize host content)) i)
      ]

  pub compress-IsCounted :
      (h : Heap) (key : String) → IsCounted host h → IsCounted host (compress host h key).1
  unfolding compress
  compress-IsCounted h key i = elim (Option-cases (Dict.get key h.objects)) [
    | inl e ↦ rw (e, compress) i
    | inr (obj, e) ↦ elim (Bool-cases obj.compressed) [
      | inl q ↦ rw (e, q, compress) i
      | inr q ↦ rw (e, q, compress) (finish_compress-IsCounted h key obj.content obj.token_count i)
    ]
  ]

  pub swap_out-IsCounted :
      (h : Heap) (key : String) → IsCounted host h → IsCounted host (swap_out h key).1
  unfolding swap_out write_file swapped_object
  swap_out-IsCounted h key i = elim (Option-cases (Dict.get key h.objects)) [
    | inl e ↦ rw (e, swap_out) i
    | inr (obj, e) ↦ elim (Bool-cases obj.swapped) [
      | inl q ↦ rw (e, q, swap_out) i
      | inr q ↦
          rw (e, q, swap_out)
            (set_object-IsCounted key (swapped_object (swap_path h key) obj)
              (write_file (swap_path h key) obj.content h) tt i)
    ]
  ]

  pub swap_in-IsCounted :
      (h : Heap) (key : String) → IsCounted host h → IsCounted host (swap_in host h key).1
  unfolding swap_in restored
  swap_in-IsCounted h key i = elim (Option-cases (Dict.get key h.objects)) [
    | inl e ↦ rw (e, swap_in) i
    | inr (obj, e) ↦ elim (Bool-cases obj.swapped) [
      | inr q ↦ rw (e, q, swap_in) i
      | inl q ↦ elim (Option-cases (read_file obj.disk_path h)) [
        | inl f ↦ rw (e, q, f, swap_in) i
        | inr (content, f) ↦
            rw (e, q, f, swap_in) (set_object-IsCounted key (restored host content obj) h refl i)
      ]
    ]
  ]
