-- ===== src/Tests/Master.antt =====
-- A store that is a function, numbers in 8 bytes, and a raft that applies each command at once.
use cfs.Base.{
  ℕ, ◌+◌, ◌<◌, ◌≡◌, refl, ◌∙◌, sym, subst, ap, append-nil, length, inl, [], Option, none, some,
  Error, Result, ok, err, arith,
}
use cfs.Bytes.{Bytes, put_uint, read_uint, split_at, read_full, uint_from}
use cfs.Bytes.RoundTrip.{read_uint-put_uint, length-put_uint}
use cfs.Master.{
  Key, RocksDb, Strconv, value_after, MetadataFsm, apply, same_key, is_delete, cmd_map, written,
}
use cfs.Master.IdAllocator.{
  Master, Submit, submitted, allocate_data_partition_id, restore, restore_id, read_id,
}
use cfs.Master.Ids.{data_partitions, IsStrconv, IsRaft, Others, no_more, allocate, halts, restores}
use cfs.Master.Increasing.{allocate-increasing}

abbrev value_or : {A : Type 0} → A → Result A → A
value_or a (ok b) = b
value_or a (err _) = a

instance unfoldable pub table : RocksDb
table = record {
  Db = Key → Bytes;
  write = λ db batch. ok (λ k. value_after batch k (db k));
  get_bytes = λ db k. ok (db k);
  content = λ db k. db k;
  get_bytes-content = λ db k v h. ap (value_or v) (sym h);
  write-content = λ db db' batch k h. ap (λ r. value_or db r k) (sym h);
}

unfoldable pub parsed : Result (ℕ × Bytes) → Result ℕ
parsed (ok (n, _)) = ok n
parsed (err e) = err e

abbrev pub strconv : Strconv
strconv = record { format_uint = put_uint 8; parse_uint = λ bytes. parsed (read_uint 8 bytes) }

pub strconv-IsStrconv : IsStrconv strconv
unfolding parsed
strconv-IsStrconv = record {
  reads_back = λ n h. rw (sym (append-nil (put_uint 8 n)), read_uint-put_uint 8 n [] h) refl;
  writes = λ n e.
      let l : 0 ≡ 8 = ap (length {A = ℕ}) (sym e) ∙ length-put_uint 8 n in
      absurd (omega (arith, l));
}

unfoldable pub answered : MetadataFsm → Result MetadataFsm → Option Error × MetadataFsm
answered mf (ok mf') = (none, mf')
answered mf (err e) = (some e, mf)

abbrev pub submit : Submit
submit mf cmd = answered mf (apply strconv mf cmd (mf.applied + 1))

answered-ok :
    (mf mf' : MetadataFsm) (r : Result MetadataFsm) → answered mf r ≡ (none, mf') → r ≡ ok mf'
unfolding answered
answered-ok mf mf' (ok fsm) h = ground arith
answered-ok mf mf' (err e) h = ground arith

answered-err :
    (mf mf' : MetadataFsm) (e : Error) (r : Result MetadataFsm)
    → answered mf r ≡ (some e, mf')
    → mf ≡ mf'
unfolding answered
answered-err mf mf' e (ok fsm) h = ground arith
answered-err mf mf' e (err x) h = ground arith

pub submit-IsRaft : IsRaft strconv submit
submit-IsRaft = record {
  answers = λ mf mf' cmd h. record {
    before = mf;
    earlier = no_more;
    index = mf.applied + 1;
    result = answered-ok mf mf' _ h;
  };
  fails =
      λ mf mf' cmd e h. inl (subst (λ x. Others strconv x mf) (answered-err mf mf' e _ h) no_more);
}

unfoldable pub fresh : Master
unfolding table
fresh = record {
  id_alloc = record { data_partition_id = 0; meta_partition_id = 0; common_id = 0 };
  fsm = record { store = λ _. []; applied = 0 };
}

-- The first allocation, and then a restart.
abbrev restarted : Master
unfolding table fresh
restarted = record {
  id_alloc = record { data_partition_id = 1; meta_partition_id = 0; common_id = 0 };
  fsm = (allocate strconv submit data_partitions fresh).1.fsm;
}

allocate-increasing_example : 1 < 2
unfolding table fresh restarted allocate_data_partition_id submitted answered apply is_delete
    cmd_map written value_after same_key restore restore_id read_id parsed put_uint read_uint
    read_full split_at uint_from
allocate-increasing_example =
    allocate-increasing strconv strconv-IsStrconv submit submit-IsRaft data_partitions fresh
      restarted 1 2 (omega arith) (omega arith) refl (restores _ restarted.id_alloc refl halts) refl
