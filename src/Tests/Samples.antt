-- ===== src/Tests/Samples.antt =====
-- The theorem on sampread at a concrete store.
use mangoo.Base.{◌≡◌, refl, List, [], ◌∷◌, arith}
use mangoo.Types.{Entry, FsinfoData, DentryData, zero_dentry, mangoo_data, fsinfo, dentry, ok}
use mangoo.System.{World, undefined}
use mangoo.Compare.{strcmp}
use mangoo.Stream.Content.{HasBlocks}
use mangoo.Samp.{sampread, newfile}
use mangoo.Samp.Buffer.{sampread_overflows}
use mangoo.Tests.Memory.{lookup}
use mangoo.Tests.Systems.{
  desk, in_memory-IsStore, in_memory-IsReliable, in_memory-IsOpenable, machine-HasMemory,
}

abbrev counter : FsinfoData
counter = record { dfd_lastino = 9 }

-- A file of 31 bytes, none of them written.
abbrev long_file : DentryData
long_file = record zero_dentry { ddd_type = mangoo_data; ddd_ino = 7; ddd_size = 31 }

abbrev volume : World (List Entry)
volume = record {
  base = (fsinfo, counter) ∷ (dentry newfile, long_file) ∷ [];
  last_inode = 0;
  mem = record { handles = 0; keys = 0; locators = 0; cursors = 0 };
}

counter_found : lookup volume.base fsinfo ≡ ok counter
unfolding lookup
counter_found = refl

newfile_found : lookup volume.base (dentry newfile) ≡ ok long_file
unfolding lookup strcmp
newfile_found = refl

volume-HasBlocks : HasBlocks desk volume.base
unfolding lookup
volume-HasBlocks = record { whole = λ ino offset c e. absurd (cc) }

sampread_overflows_example : sampread desk volume ≡ undefined
sampread_overflows_example =
    sampread_overflows desk in_memory-IsStore in_memory-IsReliable in_memory-IsOpenable
      machine-HasMemory (record { env_created = refl; home_opened = refl }) volume counter long_file
      counter_found newfile_found volume-HasBlocks (omega arith) (omega arith)
