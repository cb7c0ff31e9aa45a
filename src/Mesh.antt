-- ===== src/Mesh.antt =====
-- crates/zerokv/src/mesh.rs: the workers of `run_put_workload`, under every interleaving.
pub mod Sums
pub mod Flow
pub mod Delivery
pub mod Steps
pub mod Quiesce
mod Tests
use zerokv.Prelude.{
  ℕ, zero, suc, ◌+◌, ◌-◌, ◌*◌, ◌/◌, ◌%◌, ◌^◌, ◌≡◌, ◌≢◌, ◌<◌, max, Bool, Option, none, some, List,
  [], ◌∷◌, ◌++◌, length, ◌==◌, if◌then◌else◌,
}
use zerokv.Words.{next_power_of_two}
use zerokv.Arena.Kv.{slice_eq}
use zerokv.Index.{Bytes, route}

-- A `Command::Put`; the workload sends no other command.
abbrev pub Item : Type 0
Item = Bytes × Bytes

-- The capacity of a queue of the matrix.
abbrev pub cap : ℕ
cap = 4096

-- Where a worker stands. `saw_done` has found that all workers are done with their workload;
-- `saw_sent` has then loaded the number of commands sent.
pub data Pc : Type 0 where
  producing : Pc
  sending : (key val : Bytes) (dst : ℕ) → Pc
  quiescing : Pc
  saw_done : Pc
  saw_sent : ℕ → Pc
  exited : Pc

-- What only the worker itself writes: the items of the workload that are left, and its row of the
-- command matrix, whose queues the other workers pop.
pub record Row : Type 0 where
  pub pc : Pc
  pub items : List Item
  pub queue : ℕ → List Item

-- What a worker is doing to its own shard: nothing; or it has a put of `src` in hand, popped from its
-- queue or, where `src` is itself, from its workload; or it has inserted it and not yet counted it.
pub data Applying : Type 0 where
  nothing : Applying
  taken : (src : ℕ) (item : Item) → Applying
  inserted : Applying

abbrev pub Shard : Type 0
Shard = Bytes → Option Bytes

-- `order` is a record of the past: the puts that each shard has taken in, with the worker that issued
-- them, the newest first.
pub record World : Type 0 where
  pub row : ℕ → Row
  pub applying : ℕ → Applying
  pub shard : ℕ → Shard
  pub order : ℕ → List (ℕ × Item)
  pub sent : ℕ
  pub applied : ℕ
  pub phase1_done : ℕ

abbrev pub upd {ℓ} : {A : Type ℓ} → (ℕ → A) → ℕ → A → ℕ → A
upd f i v j = if i == j then v else f j

-- `BTreeMap::insert`.
abbrev pub insert_in : Shard → Item → Shard
insert_in shard (key, val) q = if slice_eq q key then some val else shard q

-- A put that `src` issued goes into the shard of `dst`.
abbrev pub apply : World → ℕ → ℕ → Item → World
apply s src dst item = record s {
  shard = upd s.shard dst (insert_in (s.shard dst) item);
  order = upd s.order dst ((src, item) ∷ s.order dst);
  applying = upd s.applying dst inserted;
}

abbrev pub set_row : World → ℕ → Row → World
set_row s i r = record s { row = upd s.row i r }

-- One move of one worker: one load, one change of a counter, one push, one pop or one insertion a
-- step. `sent` is counted with the item that leaves the workload, before anything is done with it.
-- `pump` runs in every phase, also while a push waits; a worker that is applying a put does nothing
-- else until it has counted it.
pub data Step (n mask : ℕ) (s : World) : World → Type 0 where
  put_local :
      (i : ℕ) (key val : Bytes) (rest : List Item)
      → i < n
      → (s.row i).pc ≡ producing
      → s.applying i ≡ nothing
      → (s.row i).items ≡ (key, val) ∷ rest
      → route mask key ≡ i
      → Step n mask s (record (set_row s i (record (s.row i) { items = rest })) {
        applying = upd s.applying i (taken i (key, val));
        sent = suc s.sent;
      })
  put_remote :
      (i : ℕ) (key val : Bytes) (rest : List Item)
      → i < n
      → (s.row i).pc ≡ producing
      → s.applying i ≡ nothing
      → (s.row i).items ≡ (key, val) ∷ rest
      → route mask key ≢ i
      → Step n mask s
          (record (set_row s i
            (record (s.row i) { items = rest; pc = sending key val (route mask key) })) {
              sent = suc s.sent;
            })
  push :
      (i : ℕ) (key val : Bytes) (dst : ℕ)
      → i < n
      → (s.row i).pc ≡ sending key val dst
      → s.applying i ≡ nothing
      → length ((s.row i).queue dst) < cap
      → Step n mask s (
          set_row s i (record (s.row i) {
            pc = producing;
            queue = upd (s.row i).queue dst ((s.row i).queue dst ++ (key, val) ∷ []);
          }))
  pop :
      (src dst : ℕ) (item : Item) (rest : List Item)
      → src < n
      → dst < n
      → (s.row dst).pc ≢ exited
      → s.applying dst ≡ nothing
      → (s.row src).queue dst ≡ item ∷ rest
      → Step n mask s
          (record (set_row s src (record (s.row src) { queue = upd (s.row src).queue dst rest })) {
            applying = upd s.applying dst (taken src item);
          })
  insert :
      (src dst : ℕ) (item : Item)
      → dst < n
      → s.applying dst ≡ taken src item
      → Step n mask s (apply s src dst item)
  count :
      (dst : ℕ)
      → dst < n
      → s.applying dst ≡ inserted
      → Step n mask s (record s { applying = upd s.applying dst nothing; applied = suc s.applied })
  finish :
      (i : ℕ)
      → i < n
      → (s.row i).pc ≡ producing
      → s.applying i ≡ nothing
      → (s.row i).items ≡ []
      → Step n mask s (record (set_row s i (record (s.row i) { pc = quiescing })) {
        phase1_done = suc s.phase1_done;
      })
  see_done :
      (i : ℕ)
      → i < n
      → (s.row i).pc ≡ quiescing
      → s.applying i ≡ nothing
      → s.phase1_done ≡ n
      → Step n mask s (set_row s i (record (s.row i) { pc = saw_done }))
  see_sent :
      (i : ℕ)
      → i < n
      → (s.row i).pc ≡ saw_done
      → s.applying i ≡ nothing
      → Step n mask s (set_row s i (record (s.row i) { pc = saw_sent s.sent }))
  see_more :
      (i m : ℕ)
      → i < n
      → (s.row i).pc ≡ saw_sent m
      → s.applying i ≡ nothing
      → m ≢ s.applied
      → Step n mask s (set_row s i (record (s.row i) { pc = quiescing }))
  exit :
      (i m : ℕ)
      → i < n
      → (s.row i).pc ≡ saw_sent m
      → s.applying i ≡ nothing
      → m ≡ s.applied
      → Step n mask s (set_row s i (record (s.row i) { pc = exited }))

abbrev pub init : (ℕ → List Item) → World
init work = record {
  row = λ i. record { pc = producing; items = work i; queue = λ _. [] };
  applying = λ _. nothing;
  shard = λ _ _. none;
  order = λ _. [];
  sent = 0;
  applied = 0;
  phase1_done = 0;
}

-- A mesh of `n` workers, `n` being the requested number rounded up to a power of two.
abbrev pub workers : ℕ → ℕ
workers requested = next_power_of_two (max requested 1)

pub data Reach (requested : ℕ) (work : ℕ → List Item) : World → Type 0 where
  start : Reach requested work (init work)
  later :
      {s t : World}
      → Reach requested work s
      → Step (workers requested) (workers requested - 1) s t
      → Reach requested work t
