-- ===== src/Mm/PageTable/Tests.antt =====
-- An empty page table.
use oscomp.Common.{◌+◌, ◌≡◌, refl, none, true, arith}
use oscomp.Mm.PageTable.{PageTable, pgt_map_page, lookup_pa, pgt_unmap, page_down, page_up}
use oscomp.Mm.PageTable.Unmap.{Unmapped, pgt_unmap-Unmapped}
use oscomp.Mm.PageTable.Laws.{Mapped, pgt_map_page-Mapped}

abbrev blank : PageTable
blank = record { root = λ _. none; mapped_pages = 0 }

nothing_mapped : lookup_pa blank 0x12345 ≡ 0
unfolding lookup_pa
nothing_mapped = refl

no_pages_left : pgt_map_page blank 0x12345 0x80300000 6 1 ≡ none
unfolding pgt_map_page
no_pages_left = refl

pgt_map_page-Mapped_example :
    Mapped blank 0x12345 0x80300000 2 (pgt_map_page blank 0x12345 0x80300000 6 2)
pgt_map_page-Mapped_example =
    pgt_map_page-Mapped blank 0x12345 0x80300000 6 2 (omega arith) (omega arith) (omega arith)

pgt_unmap-Unmapped_example :
    Unmapped blank
      (page_down 0x12345)
      (page_up (0x12345 + 8192))
      (pgt_unmap blank 0x12345 8192 true)
pgt_unmap-Unmapped_example = pgt_unmap-Unmapped blank 0x12345 8192 true (omega arith)
