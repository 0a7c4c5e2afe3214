-- ===== src/Load/Source.antt =====
-- The donor's copy of a layer, in its memory entry or in its file.
use semblend_vllm_connector.Prelude.{
  ◌≡◌, ◌⊎◌, refl, ap, inl, inr, String, Option, none, some, Dict, get,
}
use semblend_vllm_connector.Types.{PendingLoad}
use semblend_vllm_connector.Writer.{HostKv}
use semblend_vllm_connector.Worker.{MemoryEntry, Worker, WorkerEngine, donor_dir}
use semblend_vllm_connector.Load.{layer_source}

-- The files of the load's donor.
abbrev pub files_of : WorkerEngine → PendingLoad → Worker → Dict (Option HostKv)
files_of e load w = (donor_dir (e.storage_key load.donor_id load.namespace) w).files

-- No copy of the layer is in the donor's memory entry.
abbrev pub NotInMemory : Option MemoryEntry → String → Type 0
NotInMemory none layer = Unit
NotInMemory (some kept) layer = get layer kept.layers ≡ none

abbrev pub InMemory : Option MemoryEntry → String → HostKv → Type 0
InMemory none layer src = ⊥
InMemory (some kept) layer src = get layer kept.layers ≡ some src

-- The donor's copy of a layer is the one in its memory entry, or else the one that its file holds.
abbrev pub IsCopy : Option MemoryEntry → String → Dict (Option HostKv) → HostKv → Type 0
IsCopy entry layer files src =
    InMemory entry layer src ⊎ (NotInMemory entry layer × (get layer files ≡ some (some src)))

-- It has none: there is no file, or none that can be parsed.
abbrev pub IsGone : Option MemoryEntry → String → Dict (Option HostKv) → Type 0
IsGone entry layer files =
    NotInMemory entry layer × ((get layer files ≡ none) ⊎ (get layer files ≡ some none))

from_file : Option (Option HostKv) → Option HostKv
from_file file = elim file [ none ↦ none | some parsed ↦ parsed ]

from_file-some :
    (o : Option (Option HostKv)) (src : HostKv) → from_file o ≡ some src → o ≡ some (some src)
unfolding from_file
from_file-some none src h = cc
from_file-some (some parsed) src h = ap some h

from_file-none : (o : Option (Option HostKv)) → from_file o ≡ none → (o ≡ none) ⊎ (o ≡ some none)
unfolding from_file
from_file-none none h = inl refl
from_file-none (some parsed) h = inr (ap some h)

or_else : Option HostKv → Option HostKv → Option HostKv
or_else o file = elim o [ none ↦ file | some rows ↦ some rows ]

or_else-some :
    (o file : Option HostKv) (src : HostKv)
    → or_else o file ≡ some src
    → (o ≡ some src) ⊎ ((o ≡ none) × (file ≡ some src))
unfolding or_else
or_else-some none file src h = inr (refl, h)
or_else-some (some rows) file src h = inl h

or_else-none : (o file : Option HostKv) → or_else o file ≡ none → (o ≡ none) × (file ≡ none)
unfolding or_else
or_else-none none file h = (refl, h)
or_else-none (some rows) file h = cc

pub layer_source-IsCopy :
    (e : WorkerEngine) (load : PendingLoad) (entry : Option MemoryEntry) (layer : String)
    (w : Worker) (src : HostKv)
    → layer_source e load entry layer w ≡ some src
    → IsCopy entry layer (files_of e load w) src
unfolding layer_source or_else from_file
layer_source-IsCopy e load none layer w src h = inr (tt, from_file-some _ src h)
layer_source-IsCopy e load (some kept) layer w src h =
    elim (or_else-some (get layer kept.layers) _ src h) [
      | inl held ↦ inl held
      | inr (absent, file) ↦ inr (absent, from_file-some _ src file)
    ]

pub layer_source-IsGone :
    (e : WorkerEngine) (load : PendingLoad) (entry : Option MemoryEntry) (layer : String)
    (w : Worker)
    → layer_source e load entry layer w ≡ none
    → IsGone entry layer (files_of e load w)
unfolding layer_source or_else from_file
layer_source-IsGone e load none layer w h = (tt, from_file-none _ h)
layer_source-IsGone e load (some kept) layer w h =
    let (absent, file) = or_else-none (get layer kept.layers) _ h in (absent, from_file-none _ file)
