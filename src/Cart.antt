-- ===== src/Cart.antt =====
-- apps/api/src/modules/cart: a customer's cart.
pub mod Selections
pub mod Items
pub mod Promo
pub mod Checkout
