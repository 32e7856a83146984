-- ===== src/TableHtml/Tests.antt =====
-- Hostile markup, cell texts, and the theorem about sanitizing at one.
use turbo_ocr.Common.{◌≡◌, refl, List, [], ◌∷◌, Bytes, codes, bytes_eq, is_space}
use turbo_ocr.TableHtml.Texts.{ascii_lower, is_alnum, starts_with, split_first, find_lower}
use turbo_ocr.TableHtml.Sanitize.{
  is_allowed_table_tag, name_of, attrs_of, find_attr, until_quote, until_space, keep_alnum,
  emit_attrs, write_tag, sanitize_tag, sanitize_loop, sanitize_table_html,
}
use turbo_ocr.TableHtml.Reconstruct.{
  holds, td_content, escape_cell_from, escape_cell_html, write_fragments, write_cell, write_tokens,
  concat, reconstruct_html,
}
use turbo_ocr.Otsl.Escape.{unescape}
use turbo_ocr.TableHtml.CellLaws.{CellHtml, escape_cell_html-Reads}
use turbo_ocr.TableHtml.SanitizeLaws.{Sanitizes, SafeHtml, sanitize_table_html-SafeHtml}

abbrev hostile : Bytes
hostile = codes "<TD valign=top onclick='x' colspan=2>a<script>b</Script>c<img src=x></td> 1 < 2"

sanitized : sanitize_table_html hostile ≡ codes "<td colspan=\"2\" valign=\"top\">ac</td> 1 &lt; 2"
unfolding sanitize_table_html sanitize_loop sanitize_tag write_tag emit_attrs keep_alnum until_quote
    until_space find_attr attrs_of name_of is_allowed_table_tag find_lower split_first starts_with
    is_alnum ascii_lower bytes_eq is_space
sanitized = refl

abbrev structure : List Bytes
structure =
    codes "<html>"
    ∷ codes "<body>"
    ∷ codes "<table>"
    ∷ codes "<tr>"
    ∷ codes "<td></td>"
    ∷ codes "<td"
    ∷ codes " colspan=\"2\""
    ∷ codes ">"
    ∷ codes "</td>"
    ∷ codes "</tr>"
    ∷ codes "</table>"
    ∷ codes "</body>"
    ∷ codes "</html>"
    ∷ []

reconstructed :
    reconstruct_html structure
      ((0 ∷ []) ∷ (1 ∷ 2 ∷ []) ∷ [])
      (codes "1<2" ∷ codes " <b>x</b>" ∷ codes "y" ∷ [])
    ≡ codes
        "<html><body><table><tr><td>1&lt;2</td><td colspan=\"2\"><b>x y</b></td></tr></table></body></html>"
unfolding reconstruct_html concat write_tokens write_cell write_fragments escape_cell_from
    td_content holds starts_with bytes_eq
reconstructed = refl

sanitize_table_html-SafeHtml_example :
    Sanitizes hostile (sanitize_table_html hostile) × SafeHtml (sanitize_table_html hostile)
sanitize_table_html-SafeHtml_example = sanitize_table_html-SafeHtml hostile

abbrev emphasized : Bytes
emphasized = codes "<b>p < .05</b> & <i>n > 9</i>"

escape_cell_html-Reads_example :
    CellHtml (escape_cell_html emphasized) × (unescape 0 (escape_cell_html emphasized) ≡ emphasized)
escape_cell_html-Reads_example = escape_cell_html-Reads emphasized
