-- ===== src/Tests/Calls.antt =====
-- The functions of nifat32.c at a concrete volume.
use ni_fat.Base.{ℕ, ◌≤◌, ◌≡◌, refl, arith, true, List, [], ◌∷◌, replicate, none, some}
use ni_fat.State.{Core, ready}
use ni_fat.Threading.{null_lock}
use ni_fat.Strings.{pos}
use ni_fat.Layout.{DirectoryEntry, blank_journal}
use ni_fat.Content.{Content, file, content_at, in_table}
use ni_fat.Fat.{known}
use ni_fat.Content.Access.{field, get_content_mode, get_content_data_ca}
use ni_fat.Content.Allocation.{open_table}
use ni_fat.Entry.Operations.{Index}
use ni_fat.Api.Defs.{World, Host, is_read_mode, is_write_mode, is_over}
use ni_fat.Api.Defs.Lock.{resting}
use ni_fat.Api.Chains.{add_cluster_to_chain}
use ni_fat.Cluster.{get_cluster_offset}
use ni_fat.Cluster.Claim.{search_start}
use ni_fat.Api.Chains.Links.{Links, add_cluster_to_chain-Links}
use ni_fat.Api.Reading.{read_content2buffer}
use ni_fat.Api.Reading.Ends.{read_content2buffer-ends}
use ni_fat.Api.Writing.{write_buffer2content}
use ni_fat.Api.Writing.Ends.{write_buffer2content-ends}
use ni_fat.Api.Writing.Kept.{Kept, read_content2buffer-write_buffer2content}
use ni_fat.Tests.Device.{Store, memory, memory-IsDevice, volume, blank}

abbrev entry : DirectoryEntry
entry = record {
  file_name = replicate 11 65;
  name_hash = 7;
  attributes = 0x20;
  rca = 2;
  dca = 5;
  file_size = 600;
  checksum = 1;
}

-- a file that is open for reading and writing, from cluster 5 on
abbrev opened : Content
opened = record {
  names = replicate 13 0;
  root = none;
  parent_cluster = 2;
  data_cluster = 5;
  meta = entry;
  content_type = file;
  mode = 3;
}

-- no trees
abbrev no_trees : Index ℕ
no_trees = record {
  find = λ root hash t. none;
  insert = λ root hash is_dir ca t. (root, t);
  delete = λ root hash t. (none, t);
}

abbrev host : ℕ → Host Store ℕ
host rounds = record {
  driver = memory;
  index = no_trees;
  ecache_free = λ root t. t;
  old = replicate 512 0;
  places = λ i. blank_journal;
  entry = entry;
  fuel = rounds;
}

-- the clusters 5 and 7 of the file, as a cache has them
abbrev warm : Core Store
warm = record blank { fat = some (0 ∷ 0 ∷ 0 ∷ 0 ∷ 0 ∷ 7 ∷ 0 ∷ 0x0fffffff ∷ []) }

abbrev world : World Store ℕ
world = record {
  logged = record { state = ready warm; index = 0; lock = null_lock };
  table = open_table (opened ∷ []) 0;
}

read_content2buffer-ends_example :
    (r : ℕ × List ℕ) × (w' : World Store ℕ) × (read_content2buffer
        (host 1000)
        volume
        (pos 0)
        300
        (replicate 600 0)
        600
        (resting world)
      ≡ some (r, resting w'))
    × (r.0 ≤ 600)
    × (w'.table ≡ world.table)
read_content2buffer-ends_example =
    read_content2buffer-ends (host 1000) volume (pos 0) 300 (replicate 600 0) 600 world
      (omega arith) (omega arith)

write_buffer2content-ends_example :
    (n : ℕ) × (w' : World Store ℕ) × (write_buffer2content
        (host 1000)
        volume
        (pos 0)
        300
        (replicate 600 9)
        600
        (resting world)
      ≡ some (n, resting w'))
    × (n ≤ 600)
    × (w'.table ≡ world.table)
write_buffer2content-ends_example =
    write_buffer2content-ends (host 1000) volume (pos 0) 300 (replicate 600 9) 600 world
      (omega arith) (omega arith)

add_cluster_to_chain-Links_example :
    let (offt, s1) = get_cluster_offset volume (ready warm) in
    Links memory volume 5 offt
      (search_start memory volume offt s1)
      (add_cluster_to_chain memory volume 5 (ready warm))
add_cluster_to_chain-Links_example = add_cluster_to_chain-Links memory volume 5 (ready warm)

abbrev word : List ℕ
word = 1 ∷ 2 ∷ 3 ∷ []

writable : is_write_mode (get_content_mode (pos 0) world.table) ≡ true
unfolding is_write_mode get_content_mode field content_at in_table
writable = refl

readable : is_read_mode (get_content_mode (pos 0) world.table) ≡ true
unfolding is_read_mode get_content_mode field content_at in_table
readable = refl

-- three bytes across the border of the two clusters
read_content2buffer-write_buffer2content_example : Kept (host 20) volume warm (pos 0) world 511 word
unfolding is_write_mode is_read_mode get_content_mode get_content_data_ca field content_at in_table
    known is_over
read_content2buffer-write_buffer2content_example =
    read_content2buffer-write_buffer2content (host 20) volume warm (pos 0) world 511 word writable
      readable (7 ∷ []) memory-IsDevice (omega arith) refl (omega arith)
      ((omega arith, omega arith), refl, refl, ((omega arith, omega arith), (0x0fffffff, refl)))
      (((λ e. absurd (omega (arith, e))), tt), tt) (omega arith)
