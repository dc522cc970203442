-- ===== src/Swap/Tests.antt =====
-- Tests of the swap file.
use sdp_project_c.Common.{◌≡◌, refl, none, some, first_index}
use sdp_project_c.Sample.{table, no_pages, space, resident}
use sdp_project_c.PageTable.{page_table_replacement}
use sdp_project_c.Machine.{AddrSpace}

victim : page_table_replacement 7 table ≡ some (2, resident)
unfolding page_table_replacement first_index
victim = refl

no_victim : page_table_replacement 7 no_pages ≡ none
unfolding page_table_replacement first_index
no_victim = refl

abbrev at_limit : AddrSpace
at_limit = record space { allocated_pages = 50 }
