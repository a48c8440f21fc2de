-- ===== src/DataNode/Repair/Fixes.antt =====
-- buildExtentCreationTasks and buildExtentRepairTasks, datanode/data_partition_repair.go: what each
-- replica is asked to do.
use cfs.Base.{
  append-nil, append_assoc, ℕ, not, false, ◌&&◌, ltb, ◌≡◌, refl, sym, ap, ◌∙◌, subst, Bool, ◌==◌,
  if◌then◌else◌, List, [], ◌∷◌, ◌++◌, All, Option, none, some, arith, Bool-cases, inl, inr, ==_iff,
}
use cfs.Storage.{ExtentInfo, is_tiny_extent}
use cfs.DataNode.Repair.{
  ExtentMap, DataPartitionRepairTask, lookup, collect_all, wanted, create_on, each,
  build_extent_creation_tasks, is_short, repair_on, none_short, Sorted, sort_tiny,
  build_extent_repair_tasks, prepare_repair_tasks,
}
use cfs.DataNode.Repair.Largest.{Once, IsVisit, largest_of, lookup-collect_all, Once-collect_all}

-- The requests for an extent, all of them.
abbrev pub requests : ℕ → List ExtentInfo → List ExtentInfo
requests id [] = []
requests id (x ∷ xs) = let rest = requests id xs in if x.file_id == id then x ∷ rest else rest

-- What is asked for, given the largest copy.
abbrev pub asked_for : ExtentInfo → ExtentInfo
asked_for m = record {
  file_id = m.file_id;
  size = m.size;
  crc = 0;
  is_deleted = false;
  modify_time = 0;
  source = m.source;
}

-- Whether a replica has an undeleted copy that is shorter.
abbrev pub behind : ExtentInfo → DataPartitionRepairTask → Bool
behind m t = elim (lookup m.file_id t.extents) [
  | none ↦ false
  | some e ↦ not e.is_deleted && ltb e.size m.size
]

-- What a replica is asked to create, and to repair, given the largest copy.
abbrev pub to_create : Option ExtentInfo → DataPartitionRepairTask → List ExtentInfo
to_create none t = []
to_create (some m) t = if is_tiny_extent m.file_id then [] else elim (lookup m.file_id t.extents) [
  | some _ ↦ []
  | none ↦ if m.is_deleted then [] else asked_for m ∷ []
]

abbrev pub to_repair : Option ExtentInfo → DataPartitionRepairTask → List ExtentInfo
to_repair none t = []
to_repair (some m) t = if behind m t then asked_for m ∷ [] else to_create (some m) t

requests-append :
    (id : ℕ) (xs ys : List ExtentInfo) → requests id (xs ++ ys) ≡ requests id xs ++ requests id ys
requests-append id [] ys = refl
requests-append id (x ∷ xs) ys = ground (arith, requests-append id xs ys)

each-each :
    (f g : DataPartitionRepairTask → DataPartitionRepairTask) (ts : List DataPartitionRepairTask)
    → each g (each f ts) ≡ each (λ t. g (f t)) ts
each-each f g [] = refl
each-each f g (t ∷ ts) = ap (λ r. g (f t) ∷ r) (each-each f g ts)

each-id : (ts : List DataPartitionRepairTask) → each (λ t. t) ts ≡ ts
each-id [] = refl
each-id (t ∷ ts) = ap (λ r. t ∷ r) (each-id ts)

-- One replica through the tasks of creation, and of repair.
abbrev create_all : List ExtentInfo → DataPartitionRepairTask → DataPartitionRepairTask
create_all [] t = t
create_all (info ∷ infos) t = create_all infos (create_on info t)

abbrev repair_all : List ExtentInfo → DataPartitionRepairTask → DataPartitionRepairTask
repair_all [] t = t
repair_all (info ∷ infos) t = repair_all infos (repair_on info t)

build_creation-each :
    (infos : List ExtentInfo) (ts : List DataPartitionRepairTask)
    → build_extent_creation_tasks infos ts ≡ each (create_all infos) ts
unfolding build_extent_creation_tasks
build_creation-each [] ts = sym (each-id ts)
build_creation-each (info ∷ infos) ts =
    build_creation-each infos (each (create_on info) ts)
    ∙ each-each (create_on info) (create_all infos) ts

tasks-sort_tiny : (info : ExtentInfo) (b : Bool) (r : Sorted) → (sort_tiny info b r).tasks ≡ r.tasks
unfolding sort_tiny
tasks-sort_tiny info b r = ground arith

build_repair-each :
    (infos : List ExtentInfo) (r : Sorted)
    → (build_extent_repair_tasks infos r).tasks ≡ each (repair_all infos) r.tasks
unfolding build_extent_repair_tasks
build_repair-each [] r = sym (each-id r.tasks)
build_repair-each (info ∷ infos) r =
    let fixed = record r { tasks = each (repair_on info) r.tasks } in
    build_repair-each infos (sort_tiny info (none_short info r.tasks) fixed)
    ∙ ap (each (repair_all infos)) (tasks-sort_tiny info (none_short info r.tasks) fixed)
    ∙ each-each (repair_on info) (repair_all infos) r.tasks

-- What a step adds to the lists of a task, for one extent.
record Asks (id : ℕ) (created repaired : List ExtentInfo) (t t' : DataPartitionRepairTask)
    : Type 0 where
  extents : t'.extents ≡ t.extents
  creates : requests id t'.extents_to_be_created ≡ requests id t.extents_to_be_created ++ created
  repairs : requests id t'.extents_to_be_repaired ≡ requests id t.extents_to_be_repaired ++ repaired

Asks-nothing : (id : ℕ) (t : DataPartitionRepairTask) → Asks id [] [] t t
Asks-nothing id t = record {
  extents = refl;
  creates = sym (append-nil (requests id t.extents_to_be_created));
  repairs = sym (append-nil (requests id t.extents_to_be_repaired));
}

requests-wanted :
    (id : ℕ) (info : ExtentInfo)
    → requests id (wanted info ∷ []) ≡ (if info.file_id == id then wanted info ∷ [] else [])
unfolding wanted
requests-wanted id info = refl

create_on-Asks :
    (id : ℕ) (info : ExtentInfo) (t : DataPartitionRepairTask)
    → Asks id
        (if info.file_id == id then to_create (some info) t else [])
        (if info.file_id == id then to_create (some info) t else [])
        t
        (create_on info t)
unfolding create_on wanted
create_on-Asks id info t = record {
  extents = ground arith;
  creates = ground (
    arith,
    requests-append id t.extents_to_be_created (wanted info ∷ []),
    requests-wanted id info,
    append-nil (requests id t.extents_to_be_created),
  );
  repairs = ground (
    arith,
    requests-append id t.extents_to_be_repaired (wanted info ∷ []),
    requests-wanted id info,
    append-nil (requests id t.extents_to_be_repaired),
  );
}

repair_on-Asks :
    (id : ℕ) (info : ExtentInfo) (t : DataPartitionRepairTask)
    → Asks id []
        (if info.file_id == id then (if is_short info t then wanted info ∷ [] else []) else [])
        t
        (repair_on info t)
unfolding repair_on
repair_on-Asks id info t = record {
  extents = ground arith;
  creates = ground (arith, append-nil (requests id t.extents_to_be_created));
  repairs = ground (
    arith,
    requests-append id t.extents_to_be_repaired (wanted info ∷ []),
    requests-wanted id info,
    append-nil (requests id t.extents_to_be_repaired),
  );
}

Asks-trans :
    (id : ℕ) (a b c d : List ExtentInfo) (t u v : DataPartitionRepairTask)
    → Asks id a b t u
    → Asks id c d u v
    → Asks id (a ++ c) (b ++ d) t v
Asks-trans id a b c d t u v p q = record {
  extents = q.extents ∙ p.extents;
  creates =
      q.creates
      ∙ ap (λ o. o ++ c) p.creates
      ∙ append_assoc (requests id t.extents_to_be_created) a c;
  repairs =
      q.repairs
      ∙ ap (λ o. o ++ d) p.repairs
      ∙ append_assoc (requests id t.extents_to_be_repaired) b d;
}

abbrev shorter : Option ExtentInfo → DataPartitionRepairTask → List ExtentInfo
shorter none t = []
shorter (some m) t = if is_short m t then wanted m ∷ [] else []

to_create-extents :
    (o : Option ExtentInfo) (t u : DataPartitionRepairTask)
    → u.extents ≡ t.extents
    → to_create o u ≡ to_create o t
to_create-extents none t u h = refl
to_create-extents (some m) t u h = rw h refl

shorter-extents :
    (o : Option ExtentInfo) (t u : DataPartitionRepairTask)
    → u.extents ≡ t.extents
    → shorter o u ≡ shorter o t
unfolding is_short
shorter-extents none t u h = refl
shorter-extents (some m) t u h = rw h refl

Asks-cast :
    (id : ℕ) {a b c d : List ExtentInfo} {t u : DataPartitionRepairTask}
    → a ≡ c
    → b ≡ d
    → Asks id a b t u
    → Asks id c d t u
Asks-cast id {a} {b} {c} {d} {t} {u} p q k = record {
  extents = k.extents;
  creates = k.creates ∙ ap (λ l. requests id t.extents_to_be_created ++ l) p;
  repairs = k.repairs ∙ ap (λ l. requests id t.extents_to_be_repaired ++ l) q;
}

-- A visit asks for what the entry of the extent calls for, since no other entry is of that extent.
lookup-first :
    (f : Option ExtentInfo → List ExtentInfo) (id : ℕ) (info : ExtentInfo) (infos : List ExtentInfo)
    → f none ≡ []
    → lookup info.file_id infos ≡ none
    → (if info.file_id == id then f (some info) else []) ++ f (lookup id infos)
      ≡ f (lookup id (info ∷ infos))
unfolding lookup
lookup-first f id info infos z h = elim (Bool-cases (info.file_id == id)) [
  | inl s ↦
      let same = (==_iff info.file_id id).0 s in
      let last : lookup id infos ≡ none = subst (λ i. lookup i infos ≡ none) same h in
      rw (s, last, z) (append-nil (f (some info)))
  | inr s ↦ rw s refl
]

create_all-Asks :
    (id : ℕ) (infos : List ExtentInfo) (t : DataPartitionRepairTask)
    → Once infos
    → Asks id (to_create (lookup id infos) t) (to_create (lookup id infos) t) t (create_all infos t)
unfolding lookup
create_all-Asks id [] t o = Asks-nothing id t
create_all-Asks id (info ∷ infos) t (h, o) =
    let u = create_on info t in
    let step = create_on-Asks id info t in
    let one = if info.file_id == id then to_create (some info) t else [] in
    let rest = to_create (lookup id infos) u in
    let e : one ++ rest ≡ to_create (lookup id (info ∷ infos)) t =
      ap (λ l. one ++ l) (to_create-extents (lookup id infos) t u step.extents)
      ∙ lookup-first (λ o. to_create o t) id info infos refl h in
    Asks-cast id e e (Asks-trans id one one rest rest t u _ step (create_all-Asks id infos u o))

repair_all-Asks :
    (id : ℕ) (infos : List ExtentInfo) (t : DataPartitionRepairTask)
    → Once infos
    → Asks id [] (shorter (lookup id infos) t) t (repair_all infos t)
unfolding lookup
repair_all-Asks id [] t o = Asks-nothing id t
repair_all-Asks id (info ∷ infos) t (h, o) =
    let u = repair_on info t in
    let step = repair_on-Asks id info t in
    let one = if info.file_id == id then shorter (some info) t else [] in
    let rest = shorter (lookup id infos) u in
    let e : one ++ rest ≡ shorter (lookup id (info ∷ infos)) t =
      ap (λ l. one ++ l) (shorter-extents (lookup id infos) t u step.extents)
      ∙ lookup-first (λ o. shorter o t) id info infos refl h in
    Asks-cast id refl e (Asks-trans id [] one [] rest t u _ step (repair_all-Asks id infos u o))

-- A replica does not both lack an extent and have it too short.
to_repair_lem :
    (o : Option ExtentInfo) (t u : DataPartitionRepairTask)
    → u.extents ≡ t.extents
    → to_create o t ++ shorter o u ≡ to_repair o t
unfolding is_short wanted
to_repair_lem none t u h = refl
to_repair_lem (some m) t u h = rw (shorter-extents (some m) t u h) (ground arith)

-- Both parts of the preparation.
abbrev prepared :
    List ExtentInfo → List ExtentInfo → DataPartitionRepairTask → DataPartitionRepairTask
prepared creating repairing t = repair_all repairing (create_all creating t)

-- What a replica is asked is what the largest copies call for.
abbrev pub Asked :
    List DataPartitionRepairTask → DataPartitionRepairTask → DataPartitionRepairTask → Type 0
Asked tasks t t' =
    (id : ℕ)
    → (requests id t'.extents_to_be_created ≡ to_create (largest_of id tasks) t)
      × (requests id t'.extents_to_be_repaired ≡ to_repair (largest_of id tasks) t)

-- The same for each replica.
abbrev pub EachAsked :
    List DataPartitionRepairTask
    → List DataPartitionRepairTask
    → List DataPartitionRepairTask
    → Type 0
EachAsked tasks [] [] = Unit
EachAsked tasks (t ∷ ts) (u ∷ us) = Asked tasks t u × EachAsked tasks ts us
EachAsked tasks _ _ = ⊥

-- A task as NewDataPartitionRepairTask makes it: nothing is asked yet.
pub record IsFresh (t : DataPartitionRepairTask) : Type 0 where
  pub nothing_created : t.extents_to_be_created ≡ []
  pub nothing_repaired : t.extents_to_be_repaired ≡ []
  pub once : Once t.extents

prepared-Asked :
    (tasks : List DataPartitionRepairTask) (creating repairing : List ExtentInfo)
    (t : DataPartitionRepairTask)
    → Once creating
    → Once repairing
    → ((id : ℕ) → lookup id creating ≡ largest_of id tasks)
    → ((id : ℕ) → lookup id repairing ≡ largest_of id tasks)
    → IsFresh t
    → Asked tasks t (prepared creating repairing t)
unfolding lookup
prepared-Asked tasks creating repairing t c r hc hr w id =
    let u = create_all creating t in
    let p = create_all-Asks id creating t c in
    let q = repair_all-Asks id repairing u r in
    let o = largest_of id tasks in
    (
      q.creates
          ∙ append-nil _
          ∙ p.creates
          ∙ ap (λ l. requests id l ++ to_create (lookup id creating) t) w.nothing_created
          ∙ ap (λ o. to_create o t) (hc id),
      q.repairs
          ∙ ap (λ l. l ++ shorter (lookup id repairing) u)
              (p.repairs
                ∙ ap (λ l. requests id l ++ to_create (lookup id creating) t) w.nothing_repaired
                ∙ ap (λ o. to_create o t) (hc id))
          ∙ ap (λ m. to_create o t ++ shorter m u) (hr id)
          ∙ to_repair_lem o t u p.extents,
    )

each-EachAsked :
    (tasks : List DataPartitionRepairTask) (creating repairing : List ExtentInfo)
    (ts : List DataPartitionRepairTask)
    → Once creating
    → Once repairing
    → ((id : ℕ) → lookup id creating ≡ largest_of id tasks)
    → ((id : ℕ) → lookup id repairing ≡ largest_of id tasks)
    → All IsFresh ts
    → EachAsked tasks ts (each (prepared creating repairing) ts)
each-EachAsked tasks creating repairing [] c r hc hr w = tt
each-EachAsked tasks creating repairing (t ∷ ts) c r hc hr (p, w) = (
  prepared-Asked tasks creating repairing t c r hc hr p,
  each-EachAsked tasks creating repairing ts c r hc hr w,
)

All-Once :
    (ts : List DataPartitionRepairTask)
    → All IsFresh ts
    → All (λ (t : DataPartitionRepairTask). Once t.extents) ts
All-Once [] w = tt
All-Once (t ∷ ts) (p, w) = (p.once, All-Once ts w)

-- Where no task asks for anything yet and lists each extent once, and the visits of the maps keep
-- their entries, prepareRepairTasks asks each replica to create exactly the extents, but for tiny
-- ones, that it lacks and another has undeleted, and to repair exactly those and the ones of which
-- it has an undeleted copy shorter than the largest; each is asked for once in each list, with the
-- size and the source of the first largest undeleted copy.
pub prepare_repair_tasks-asked :
    (visit creating repairing : ExtentMap → ExtentMap) (tasks : List DataPartitionRepairTask)
    → IsVisit visit
    → IsVisit creating
    → IsVisit repairing
    → All IsFresh tasks
    → EachAsked tasks tasks (prepare_repair_tasks visit creating repairing tasks).tasks
unfolding prepare_repair_tasks lookup
prepare_repair_tasks-asked visit creating repairing tasks v c r w =
    let largest = collect_all visit [] tasks in
    let once = Once-collect_all visit [] tasks tt in
    let found = λ (id : ℕ). lookup-collect_all visit id [] tasks v (All-Once tasks w) in
    subst (EachAsked tasks tasks)
      (sym (
        build_repair-each (repairing largest) _
        ∙ ap (each (repair_all (repairing largest))) (build_creation-each (creating largest) tasks)
        ∙ each-each (create_all (creating largest)) (repair_all (repairing largest)) tasks))
      (each-EachAsked tasks (creating largest) (repairing largest) tasks (c.once largest once)
        (r.once largest once) (λ id. c.same largest id once ∙ found id)
        (λ id. r.same largest id once ∙ found id) w)
