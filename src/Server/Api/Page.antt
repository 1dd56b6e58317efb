-- ===== src/Server/Api/Page.antt =====
-- api.rs: the markup of the whole status page.
use bigtop.Common.{
  ℕ, suc, ◌+◌, ◌*◌, ◌≡◌, refl, ap, ◌∙◌, Bool, List, [], ◌∷◌, String, arith, length, values, map,
  HashMap,
}
use bigtop.Common.Sort.{insert_by, sort_by}
use bigtop.Core.Wire.{ServiceEndpoint, ServiceInfo}
use bigtop.Server.State.{StateInner}
use bigtop.Server.State.Views.{service_endpoints}
use bigtop.Agent.Shell.{join}
use bigtop.Server.Api.Reads.{le_node, le_task}
use bigtop.Server.Api.Html.{
  rows, node_row, task_row, service_row, endpoint_text, render_node_rows, render_task_rows,
  render_service_rows, status_page,
}
use bigtop.Server.Api.Escape.{count, count-append}
use bigtop.Server.Api.Markup.{
  brackets, brackets-cell, brackets-row, brackets-esc, brackets-show, brackets-show_ip,
  brackets-task_row, brackets-node_row, brackets-rows,
}

length-insert_by :
    {A : Type 0} (le : A → A → Bool) (x : A) (ys : List A)
    → length (insert_by le x ys) ≡ suc (length ys)
unfolding insert_by
length-insert_by le x [] = refl
length-insert_by le x (y ∷ ys) = ground (arith, length-insert_by le x ys)

length-sort_by : {A : Type 0} (le : A → A → Bool) (xs : List A) → length (sort_by le xs) ≡ length xs
unfolding sort_by
length-sort_by le [] = refl
length-sort_by le (x ∷ xs) = length-insert_by le x (sort_by le xs) ∙ ap suc (length-sort_by le xs)

length-values : {V : Type 0} (m : HashMap V) → length (values m) ≡ length m
length-values [] = refl
length-values (e ∷ m) = ap suc (length-values m)

brackets-join : (es : List ServiceEndpoint) → brackets (join ", " (map endpoint_text es)) ≡ 0
unfolding join count
brackets-join [] = refl
brackets-join (e ∷ []) = simp (count-append, brackets-esc, brackets-show_ip) (omega arith)
brackets-join (e ∷ f ∷ es) =
    simp (count-append, brackets-esc, brackets-show_ip, brackets-join (f ∷ es)) (omega arith)

brackets-service_row : (service : ServiceInfo) → brackets (service_row service) ≡ 6
unfolding count service_row
brackets-service_row service =
    simp (brackets-row, brackets-cell, count-append, brackets-esc, brackets-join) (omega arith)

-- The rows of the services: six brackets each, and four in the row that stands for none.
abbrev pub service_brackets : List ServiceInfo → ℕ
service_brackets [] = 4
service_brackets (service ∷ services) = 6 * length (service ∷ services)

brackets-node_rows :
    (s : StateInner) (now : ℕ) → brackets (render_node_rows s now) ≡ 16 * length s.nodes
unfolding render_node_rows
brackets-node_rows s now =
    brackets-rows (node_row now) 16 (sort_by le_node (values s.nodes)) (brackets-node_row now)
    ∙ ap (λ n. 16 * n) (length-sort_by le_node (values s.nodes) ∙ length-values s.nodes)

brackets-task_rows : (s : StateInner) → brackets (render_task_rows s) ≡ 14 * length s.tasks
unfolding render_task_rows
brackets-task_rows s =
    brackets-rows task_row 14 (sort_by le_task (values s.tasks)) brackets-task_row
    ∙ ap (λ n. 14 * n) (length-sort_by le_task (values s.tasks) ∙ length-values s.tasks)

brackets-service_rows :
    (s : StateInner) → brackets (render_service_rows s) ≡ service_brackets (service_endpoints s)
unfolding render_service_rows count
brackets-service_rows s = go (service_endpoints s)
  where
    filled :
        (text placeholder : String) (k : ℕ)
        → brackets text ≡ suc k
        → brackets (elim text [ String.[] ↦ placeholder | String.◌∷◌ c t ↦ String.◌∷◌ c t ]) ≡ suc k
    filled String.[] placeholder k h = absurd (ground arith)
    filled (String.◌∷◌ c t) placeholder k h = h

    go :
        (services : List ServiceInfo)
        → brackets (elim (rows service_row services) [
          | String.[] ↦ "<tr><td colspan=\"2\">no services registered</td></tr>\n"
          | String.◌∷◌ c t ↦ String.◌∷◌ c t
        ])
          ≡ service_brackets services
    go [] = refl
    go (service ∷ services) =
        filled (rows service_row (service ∷ services)) _ (5 + 6 * length services)
          (brackets-rows service_row 6 (service ∷ services) brackets-service_row ∙ ground arith)
        ∙ ground arith

-- The number of opening angle brackets on the status page is 70, and 16 for each node, 14 for each
-- task and 6 for each service, with 4 where there is no service: no name, address or id brings in
-- markup.
pub status_page-brackets :
    (s : StateInner) (now : ℕ)
    → count b'<' (status_page s now)
      ≡ 70 + 16 * length s.nodes + 14 * length s.tasks + service_brackets (service_endpoints s)
unfolding status_page count
status_page-brackets s now =
    simp
      (count-append, brackets-show, brackets-node_rows, brackets-task_rows, brackets-service_rows)
      (omega arith)
