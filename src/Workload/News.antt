-- ===== src/Workload/News.antt =====
-- The keys that initial_populate adds, and what it comes to.
use hosk.Base.{
  ℕ, zero, suc, ◌+◌, ◌≡◌, refl, ◌≢◌, true, false, List, [], ◌∷◌, if◌then◌else◌, ◌<◌, ◌^◌,
}
use hosk.Enclave.{Ptr, Op, Enclave, opbuffer_insert}
use hosk.Skiplist.{Heap, Run, ok, null}
use hosk.Application.{insert}
use hosk.Index.{IsSkiplist}
use hosk.Operation.{Request}
use hosk.Operation.Set.{KeySet, Represents, put}
use hosk.Operation.Refinement.{Fits}
use hosk.Workload.Populate.{InitParam}

-- The keys that are added: the first `left` drawn keys that the set does not have yet.
abbrev pub news : List ℕ → ℕ → KeySet → List ℕ
news [] left s = []
news (k ∷ ks) zero s = []
news (k ∷ ks) (suc left) s =
    let old = news ks (suc left) s in
    let new = k ∷ news ks left (put k true s) in if s k then old else new

abbrev pub put_all : List ℕ → KeySet → KeySet
put_all [] s = s
put_all (k ∷ ks) s = put_all ks (put k true s)

abbrev pub last_of : List ℕ → ℕ → ℕ
last_of [] last = last
last_of (k ∷ ks) last = last_of ks k

abbrev pub inserts : List ℕ → List Request
inserts [] = []
inserts (k ∷ ks) = record { op = insert; key = k } ∷ inserts ks

-- The operations go into the array in this order.
abbrev pub push_all : List Op → Enclave → Enclave
push_all [] e = e
push_all (j ∷ js) e = push_all js (opbuffer_insert j.key j.node e).1

abbrev pub keys_of : List Op → List ℕ
keys_of [] = []
keys_of (j ∷ js) = j.key ∷ keys_of js

abbrev pub AreInserts : List Op → Type 0
AreInserts [] = Unit {0}
AreInserts (j ∷ js) = (j.node ≢ null) × AreInserts js

abbrev pub size : List ℕ → ℕ
size [] = 0
size (k ∷ ks) = size ks + 1

-- Keys that an `int` holds.
abbrev pub AreInts : List ℕ → Type 0
AreInts [] = Unit {0}
AreInts (k ∷ ks) = (k < 2 ^ 31) × AreInts ks

abbrev pub AllFit : (Ptr → ℕ) → Ptr → ℕ → List Request → Type 0
AllFit height sentinel fuel [] = Unit {0}
AllFit height sentinel fuel (r ∷ rs) = Fits height sentinel fuel r × AllFit height sentinel fuel rs

-- What the population comes to: the keys `ks` are added.
abbrev pub Populates :
    {Seed : Type 0}
    → (Ptr → ℕ)
    → Ptr
    → KeySet
    → Enclave
    → ℕ
    → List ℕ
    → Run (InitParam Seed × Enclave)
    → Type 0
Populates {Seed} height sentinel s e last ks r =
    (params' : InitParam Seed) × (h' : Heap) × (jobs : List Op) × (r
      ≡ ok (params', push_all jobs e) h')
    × IsSkiplist height sentinel h'
    × Represents (put_all ks s) h'
    × (keys_of jobs ≡ ks)
    × AreInserts jobs
    × (params'.last ≡ last_of ks last)

pub news_old :
    (k : ℕ) (ks : List ℕ) (left : ℕ) (s : KeySet)
    → s k ≡ true
    → news (k ∷ ks) (suc left) s ≡ news ks (suc left) s
news_old k ks left s t = rw t refl

pub news_new :
    (k : ℕ) (ks : List ℕ) (left : ℕ) (s : KeySet)
    → s k ≡ false
    → news (k ∷ ks) (suc left) s ≡ k ∷ news ks left (put k true s)
news_new k ks left s f = rw f refl
