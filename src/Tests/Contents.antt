-- ===== src/Tests/Contents.antt =====
-- The table of open files at concrete entries.
use ni_fat.Base.{ℕ, suc, List, ◌∷◌, replicate, some, none}
use ni_fat.Layout.{DirectoryEntry}
use ni_fat.Content.{file, empty, Content, alloc_ci}
use ni_fat.Content.Access.{Trees}
use ni_fat.Content.Allocation.{open_table, AllocResult, alloc_ci-fulfils}

abbrev entry : DirectoryEntry
entry = record {
  file_name = replicate 11 65;
  name_hash = 7;
  attributes = 0;
  rca = 2;
  dca = 9;
  file_size = 100;
  checksum = 1;
}

abbrev vacant : Content
vacant = record {
  names = replicate 13 0;
  root = none;
  parent_cluster = 0;
  data_cluster = 0;
  meta = entry;
  content_type = empty;
  mode = 0;
}

abbrev opened : Content
opened = record vacant { content_type = file; root = some 3 }

-- two open files, and no others
abbrev contents : List Content
contents = opened ∷ opened ∷ replicate 48 vacant

-- trees that are counted when they are freed
abbrev counted : Trees ℕ
counted = record { ecache_free = λ root n. suc n; entry_index = λ ca root n. (some ca, n) }

abbrev none_freed : ℕ
none_freed = 0

alloc_ci-fulfils_example :
    AllocResult contents none_freed (alloc_ci (open_table contents none_freed))
alloc_ci-fulfils_example = alloc_ci-fulfils contents none_freed
