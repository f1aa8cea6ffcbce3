-- ===== src/Lib.antt =====
-- Zuvi-Web: the stock, prices and orders of a shop that many stores sell through.
--
-- A product belongs to a store and has a price and a stock. Stock changes only through the ledger of
-- inventory/services.py. Checkout turns a customer's cart into an order and deducts the stock. An order
-- holds one store order for each store, and these hold the lines.
-- Stores move their store orders forward or reject them, customers and the management cancel
-- orders, and the management changes the status and the payment of an order; after a store's move the
-- order's status is calculated again. A cancellation or rejection returns the stock of the lines
-- through the ledger.
--
-- Files:
-- - Prelude and its children: tests on numbers, lists, signed numbers, texts as code points, and
--   database calls (Effect) that either return a value and the new state or raise and leave it.
-- - Decimal: Python's decimals and the two roundings of quantize. A Decimal is an exact fraction. The
--   context precision of 28 digits has no effect on fields of at most 14 digits.
-- - Pricing: catalog/pricing.py. calculate_selling_price, calculate_final_price, calculate_prices and
--   apply_calculated_prices keep their names. Bounds holds the proofs.
-- - Catalog: the columns of catalog/models.py that stock, cart and checkout read.
-- - Inventory.Model: inventory/models.py, with the two tables as lists. Inventory.Movement:
--   apply_stock_movement and what it calls. Inventory.Ledger: the invariant of the ledger.
--   Inventory.Conservation: balances against rows. Inventory.OrderStock: deduct_order_stock and
--   restore_order_stock of inventory/services.py; what another session commits between the first look
--   at the ledger and the lock is an argument. Inventory.Records: the named services of the same file,
--   and the initialization of opening stock.
-- - Stores: stores/status.py.
-- - Orders.Model: orders/models.py. An OrderGraph has the rows that _lock_order_graph locks, with
--   the histories and the stock tables. Orders.Status: orders/status.py. Orders.Sync:
--   orders/order_status_sync.py. Orders.Transitions and Orders.Management:
--   orders/management_status.py. Orders.Lines and Orders.Cancellation: orders/cancellation.py.
--   Orders.StoreStatus: orders/store_status.py. Orders.Lifecycle: what holds of an order through
--   all of these.
-- - Shop: the tables of cart, customers and orders that checkout reads and writes, around the rows of
--   Orders.Model. Cart: cart/services.py, with the calls in Cart.Services, what they are called with in
--   Cart.Quantity and the page of a cart in Cart.Presentation. Catalog.Public: the condition of
--   catalog/public.py. Orders.Numbers: the numbers of orders/services.py and the save methods of
--   orders/models.py. Orders.Validation and Orders.Checkout: the checks of orders/checkout.py and
--   orders/services.py. Orders.Checkout.Placement: place_customer_order and the rows that it writes.
--   A World holds what a call meets: the random tokens, and what other sessions commit before the
--   cart is locked and before each attempt to write a numbered row.
-- - The modules named Tests run the services on a small shop.
--
-- Amounts are in cents and quantities in thousandths, as the columns hold them; dates and moments
-- are ordinals; a row refers to another by its key. The loops are structural, and those that draw a
-- number have the 32 rounds of the code. Only the decimal digits of a key run on fuel, one more
-- than the key, which is enough: Prelude.Text shows that they read back as the key. A movement
-- refuses a balance of 13 digits, as the column does; the totals of an order are taken to fit.
-- Locks are not modelled beyond the commits of other sessions that Inventory.OrderStock,
-- Orders.Checkout and Cart.Services take as arguments: otherwise calls are in sequence. Addresses
-- of requests are ones that the field of a ledger row accepts, and the rows that a new row refers
-- to exist.
--
-- A posted quantity is any decimal number, an infinity or a NaN. The sum of two quantities is exact: one
-- that the context would round to 28 digits is refused by the field or the stock in either form. The
-- order of the lines on the page of a cart, which the database makes by name, is an argument.
--
-- Not modelled: the checkout preview, the purchase entries of inventory/services.py, the services of
-- catalog, stores, customers and accounts, audit logs, views, forms, admin and configuration.
pub mod Prelude
pub mod Decimal
pub mod Pricing
pub mod Catalog
pub mod Inventory
pub mod Stores
pub mod Shop
pub mod Cart
pub mod Orders
