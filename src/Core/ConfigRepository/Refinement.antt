-- ===== src/Core/ConfigRepository/Refinement.antt =====
-- The repository as a map: what a run of operations shows is what the same operations on a
-- function from keys to values show.
use sprintframework.Common.{ℕ, ◌≡◌, refl, ◌∙◌, arith}
use sprintframework.Common.{Bool, true, false, Option, none, some, List, [], ◌∷◌}
use sprintframework.Common.{Bytes, ◌==◌, nat_eq, bytes_eq, if◌then◌else◌}
use sprintframework.Core.Store.{Store, IsLawful}
use sprintframework.Core.ConfigRepository.{
  Repository, raw_key, get_property, do_set, get, set, watch, register_watch, unregister_watch,
  destroy,
}
use sprintframework.Core.ConfigRepository.Properties.{get_property-set, set_of_store, stored}

pub data Op : Type 0 where
  read : Bytes → Op
  write : Bytes → Bytes → Op
  subscribe : Bytes → Op
  unsubscribe : ℕ → Op
  close : Op

-- The properties that are set, unless the repository is closed.
pub record Properties : Type 0 where
  pub closed : Bool
  pub value_of : Bytes → Option Bytes

abbrev pub look : Properties → Bytes → Option Bytes
look m key = if m.closed then none else m.value_of key

-- An empty value deletes the property.
abbrev pub put : Bytes → Bytes → Properties → Properties
put key value m = record m {
  value_of = λ j. if j == key then (if value == [] then none else some value) else m.value_of j;
}

-- The properties after an operation.
abbrev pub apply : Op → Properties → Properties
apply (read key) m = m
apply (write key value) m = put key value m
apply (subscribe prefix) m = m
apply (unsubscribe handle) m = m
apply close m = record m { closed = true }

-- What the operations show.
abbrev pub expected : Properties → List Op → List (Option Bytes)
expected m [] = []
expected m (read key ∷ ops) = look m key ∷ expected m ops
expected m (op ∷ ops) = expected (apply op m) ops

module _ (S : Store) where
  -- The repository after an operation.
  abbrev pub step : Op → Repository S → Repository S
  step (read key) t = t
  step (write key value) t = (set S t key value).1
  step (subscribe prefix) t = (watch S prefix t).1
  step (unsubscribe handle) t = unregister_watch S handle t
  step close t = destroy S t

  abbrev pub observed : Repository S → List Op → List (Option Bytes)
  observed t [] = []
  observed t (read key ∷ ops) = get_property S t key ∷ observed t ops
  observed t (op ∷ ops) = observed (step op t) ops

  -- The repository shows the properties.
  pub record Shows (t : Repository S) (m : Properties) : Type 0 where
    pub closed_eq : t.shutting_down ≡ m.closed
    pub look_eq : (key : Bytes) → get_property S t key ≡ look m key
    pub opened : (s : S.State) × (t.store ≡ some s)

  module _ (L : IsLawful S) (set_works : (s : S.State) (k v : Bytes) → (S.set s k v).0 ≡ none)
      (remove_works : (s : S.State) (k : Bytes) → (S.remove s k).0 ≡ none) where
    set-none :
        (t : Repository S) (key value : Bytes) (s : S.State)
        → t.store ≡ some s
        → (set S t key value).0 ≡ none
    unfolding set do_set
    set-none t key value s e =
        ground (arith, e, set_works s (raw_key key) value, remove_works s (raw_key key))

    look-put :
        (t : Repository S) (key value : Bytes) (m : Properties) (j : Bytes)
        → get_property S t j ≡ look m j
        → t.shutting_down ≡ m.closed
        → (if j == key
            then if t.shutting_down then none else if value == [] then none else some value
            else get_property S t j)
          ≡ look (put key value m) j
    look-put t key value m j e c = ground (arith, e, c)

    closed_none : (t : Repository S) (j : Bytes) → get_property S (destroy S t) j ≡ none
    unfolding destroy get_property
    closed_none t j = ground arith

    write-Shows :
        (t : Repository S) (key value : Bytes) (m : Properties)
        → Shows t m
        → Shows (set S t key value).1 (put key value m)
    write-Shows t key value m h =
        let (s, e) = h.opened in
        let done = set-none t key value s e in
        let (_, store_eq, down_eq) = set_of_store S L t s key value e done in
        record {
          closed_eq = down_eq ∙ h.closed_eq;
          look_eq = λ j.
              get_property-set S L t key value j done
              ∙ look-put t key value m j (h.look_eq j) h.closed_eq;
          opened = ((stored S L s key value).1, store_eq);
        }

    step-Shows :
        (op : Op) (t : Repository S) (m : Properties) → Shows t m → Shows (step op t) (apply op m)
    unfolding watch unregister_watch destroy register_watch get_property get
    step-Shows (read key) t m h = h
    step-Shows (write key value) t m h = write-Shows t key value m h
    step-Shows (subscribe prefix) t m h = record {
      closed_eq = h.closed_eq;
      look_eq = h.look_eq;
      opened = h.opened;
    }
    step-Shows (unsubscribe handle) t m h = record {
      closed_eq = h.closed_eq;
      look_eq = h.look_eq;
      opened = h.opened;
    }
    step-Shows close t m h = record {
      closed_eq = refl;
      look_eq = λ j. closed_none t j;
      opened = h.opened;
    }

    refines :
        (ops : List Op) (t : Repository S) (m : Properties)
        → Shows t m
        → observed t ops ≡ expected m ops
    refines [] t m h = refl
    refines (read key ∷ ops) t m h = rw (h.look_eq key, refines ops t m h) refl
    refines (write key value ∷ ops) t m h =
        refines ops (set S t key value).1 (put key value m) (write-Shows t key value m h)
    refines (subscribe prefix ∷ ops) t m h =
        refines ops (watch S prefix t).1 m (step-Shows (subscribe prefix) t m h)
    refines (unsubscribe handle ∷ ops) t m h =
        refines ops (unregister_watch S handle t) m (step-Shows (unsubscribe handle) t m h)
    refines (close ∷ ops) t m h = refines ops (destroy S t) (apply close m) (step-Shows close t m h)

    -- Over a lawful store whose writes do not fail, an open repository is a map: in every run of
    -- reads, writes, new watches, ended watches and closings, each read shows what a function from
    -- keys to values shows that starts as what the repository reads, takes each write at its key,
    -- is left alone by watches, and shows nothing once it is closed.
    pub repository_refines_map :
        (ops : List Op) (t : Repository S) (s : S.State)
        → t.store ≡ some s
        → t.shutting_down ≡ false
        → observed t ops ≡ expected (record { closed = false; value_of = get_property S t }) ops
    repository_refines_map ops t s e d =
        refines ops t (record { closed = false; value_of = get_property S t })
          (record { closed_eq = d; look_eq = λ key. refl; opened = (s, e) })
