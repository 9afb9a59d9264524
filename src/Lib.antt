-- ===== src/Lib.antt =====
-- The TypeScript of the HABA shop, its enterprise dashboard and the consoles of the token and x402
-- services: what a cart costs, how it is paid through the x402 protocol, how requests to the token API
-- are signed, how the token balance is topped up, and what the consoles try out and show.
--
-- The parts and how they interact. The shop (haba/) runs on Next.js routes. The checkout route prices
-- a cart against the catalogue, clamps the total to the demonstration range, and hands the purchase to
-- the x402 client, which asks the gateway for a challenge, has the gateway's wallet build a payment,
-- and repeats the request with that payment. The Netstars client calls the token API with signed
-- requests; the adviser and the agent route have completions made with such requests, which cost
-- tokens. The top-up route orders tokens with one, has the payment signed and submits its proof, with a
-- direct credit of the ledger where the payment does not go through. The dashboard page polls the
-- balance and asks that route for a top-up when little is left. The consoles of the gateway and of
-- the facilitator try the protocol out: a normal payment, and attempts to be refused. The token console
-- reads the merchant and the activity from the token API, shows sample data for the rest, and explains
-- the protocol step by step.
--
-- Which file models which part, with paths from the repository's root:
--   Amount       haba/src/lib/haba/checkout.ts: jpyToRawUsdc, clampCheckoutUsdc, jpyToCheckoutUsdc,
--                getCheckoutClampState, in whole ten-thousandths of a USDC; amountUsdcMicro of the
--                checkout route
--   Address      haba/src/lib/haba/checkout.ts: validateAddress
--   Storage      haba/src/lib/haba/checkout.ts: the address and the reminder in localStorage
--   Locale       haba/src/lib/i18n/request.ts and locale-action.ts, and the token console's
--                netstars/token/console/src/lib/i18n/request.ts; the menu
--                haba/src/components/layout/LocaleSwitcher.tsx (Locale/Switcher)
--   Biometric    haba/src/lib/biometric.ts, and the phases of the dialog
--                haba/src/components/enterprise/PaymentAuthModal.tsx
--   Catalog      haba/src/lib/haba/products.ts and types.ts: the seven products, selectByTags and
--                the look-ups by id and by SKU
--   X402         haba/src/lib/x402-client.ts: x402Fetch with its three requests and the errors that
--                it throws, and spliceUserVerification (X402/Client, X402/Splice)
--   Checkout     haba/src/app/api/checkout/order/route.ts: the cart loop (Checkout/Cart) and POST
--                (Checkout/Order)
--   Sign         haba/src/lib/netstars/sign.ts: signRequest; the token console holds the same code in
--                netstars/token/console/src/lib/sign.ts
--   Netstars     haba/src/lib/netstars/client.ts: the six calls of the token and x402 APIs
--   Topup        haba/src/app/api/enterprise/topup/route.ts: POST and _demoCredit
--   Advice       haba/src/app/api/payment/advise/route.ts: the messages (Advice/Messages), the prompt
--                with the catalogue (Advice/Prompt), and POST
--   Agent        haba/src/app/api/enterprise/run-agent/route.ts: the tasks (Agent/Tasks) and POST
--   Panel        haba/src/app/dashboard/page.tsx: the hooks of the balance and the top-up as a state,
--                what can happen to it as a step relation (Change), and the typewriter effect
--                (Panel/Typing); Panel/Contract holds the abstract gate, and Panel/Assistant adds runAgent
--   Budget       haba/src/app/budget/page.tsx, components/enterprise/BudgetGauge.tsx, the indicators and
--                trends of lib/haba/enterprise.ts and app/api/enterprise/trend/route.ts
--   Navigation   haba/src/components/enterprise/EnterpriseSidebar.tsx and
--                netstars/token/console/src/components/Sidebar.tsx
--   Console      netstars/x402/console/src/lib/x402.ts (Console/Gateway) and the routes under
--                netstars/x402/console/src/app/api/scenarios: normal (Console/Scenarios/Rounds),
--                expired, tamper-network, tamper-resource, malformed and replay (Attempts); and
--                its page app/page.tsx: runScenario as a step relation (Console/Page), the poll and the
--                buttons (Console/Page/Buttons), the card of an order (Console/Page/Timeline)
--   Dashboard    haba/src/app/api/enterprise/balance/route.ts, enterprise/topup-history/route.ts
--                and payment/balance/route.ts, with the sample history of
--                haba/src/lib/haba/enterprise.ts
--   Wea          wea/console/src/app/api/scenarios: trigger-payment and direct-verify, and the four
--                proxies under wea/console/src/app/api/console and
--                netstars/x402/console/src/app/api/console
--   WeaConsole   wea/console/src/app/page.tsx: its state and steps, the rows and the links
--   Feed         pollOnce of both consoles' pages
--   TokenConsole netstars/token/console/src/lib/api.ts and merchant-config.ts, and its proxy
--                app/api/proxy/recent-activity/route.ts; what components/AppShell.tsx and the pages
--                dashboard and tokens load (TokenConsole/Pages)
--   Explorer     netstars/token/console/src/components/ProtocolExplorer.tsx: the recipes
--                (Explorer/Recipes), and the state, its effects and its timer as a step relation
--   Invoicing    netstars/token/console/src/app/(console)/invoices/page.tsx and billing/page.tsx: the
--                files to download, the totals, and the notice with its timers
--   TokenPages   netstars/token/console/src: app/(console)/audit/page.tsx (TokenPages/Audit),
--                components/ModelPieChart.tsx (Legend), components/LiveActivityTicker.tsx and
--                app/(console)/protocol/page.tsx (Ticker), app/(console)/settings/page.tsx (Settings)
--   Mock         netstars/token/console/src/lib/mock.ts: mulberry32 on 32-bit words (Mock/Random), the
--                usage (Mock/Usage), keys, calls and audit log (Mock/Keys), invoices (Mock/Invoices);
--                netstars/token/console/src/lib/platform-mock.ts and the proxy for its statement
--                (Mock/Platform)
--   Base, Json, Env, Route, Net   what these share: lists and texts, JSON values, environment
--                variables, responses and errors of a route, and the effects of a route
--   Samples, Tests   concrete services and inputs
--
-- How code corresponds to definitions. A function that awaits is a computation of type `Io`: it
-- returns, throws, or sends a request and goes on from the reply, which is a response or a rejection;
-- `try … catch` is `try`. `run` executes it against a service, any function from a state and a request
-- to a reply and a new state, and records each request with its reply. A theorem about `run` therefore
-- speaks of every order of answers, failures included. Values drawn from outside (the clock, random
-- bytes, the environment) are arguments. JSON numbers are fractions with a sign; a number that
-- is not finite does not occur in JSON. Amounts in JavaScript's binary floating point are taken as
-- the exact decimals that they print as; the round to four decimals is that of the exact quotient.
-- Yen totals and quantities are natural numbers of any size, where the source has doubles, which are
-- exact below 2 ^ 53.
-- `slice` on texts counts code points, where the source counts UTF-16 units.
-- Built-in methods are modelled as their documentation has them: `Array.prototype.sort` is a stable sort by
-- the comparator, here by insertion. A reply has a status that allows a body, so 304 does not occur. A
-- payment header is a text, null, a number, a Boolean or an object where it is decoded, and no array.
-- The choice of a language sets its cookie and renders the page again in one step.
-- Capitals and small letters are those of ASCII. The seed of the sample data is counted up without a wrap,
-- as the source's double is, and every draw takes it modulo 2 ^ 32. A React page is a record of its hooks;
-- an effect runs after each change of its dependencies, in the source's order.
-- The two replies of a poll take effect together, and of the calls that a page makes at once the first
-- ends first. Timers count milliseconds, and one that is due goes off before the time goes on. A share is
-- compared with its bound by products of whole numbers.
-- Every recursion is structural, on a list, a text or the tree of a computation, but for two kinds of
-- function on fuel: the typewriter effect, for which a quarter of the text's length and one more ticks are
-- enough, and the digits of a number, alone or in groups of three, for which its value and one more
-- divisions are enough.
--
-- What stands for code outside the repository. `Codec` holds JSON.parse, JSON.stringify, the text of a
-- SyntaxError, base64 and number formats; `Crypto` the two digests of node:crypto; `WebStorage` and
-- `Cookies` the storage of the browser and next/headers; `Browser` WebAuthn, SHA-256 and btoa; `Calendar`
-- what `Date` gives of a time; `wave` is the curve that Math.sin gives a trend. A theorem that needs more of them than their types has it as a hypothesis.
--
-- What is not modelled: the markup of pages and components, and the pages, charts and tables that only lay
-- out data (usage, API keys, models, merchants, revenue, the shop's pages, the top bars); the Python and Rust services behind the APIs; translations; class names; the formats of numbers,
-- whose rounding in binary floating point the models do not have; and the routes of the dashboard that
-- answer with constant sample data.
pub mod Base
pub mod Json
pub mod Net
pub mod Address
pub mod Amount
pub mod Catalog
pub mod Env
pub mod X402
pub mod Route
pub mod Checkout
pub mod Console
pub mod Dashboard
mod Samples
mod Tests
pub mod Sign
pub mod Netstars
pub mod Topup
pub mod Advice
pub mod Panel
pub mod Locale
pub mod Storage
pub mod TokenConsole
pub mod Mock
pub mod Agent
pub mod Wea
pub mod Biometric
pub mod Explorer
pub mod Feed
pub mod WeaConsole
pub mod Invoicing
pub mod TokenPages
pub mod Budget
pub mod Navigation
